-- ===== src/Const/Models.antt =====
-- What the model tests of `LockInfo` accept: a listed model, or one with a suffix behind `-` or ` `.
use yalexs_ble.Prelude.{
  ◌≡◌, ◌⊎◌, inl, inr, true, List, [], ◌∷◌, ◌++◌, Text, codes, any, text_eq, text_eq_refl,
  text_eq-eq, starts_with, starts_with-append, starts_with-split, arith, Bool-cases, ◌↔◌, subst,
  sym,
}
use yalexs_ble.Const.Records.{LockInfo}
use yalexs_ble.Const.Info.{matches_model, model_in}

-- `model` is `entry`, or `entry` with a suffix behind a dash or a blank.
abbrev pub IsVariant : Text → Text → Type 0
IsVariant model entry =
    (model ≡ entry)
    ⊎ (((t : Text) × (model ≡ (entry ++ codes "-") ++ t))
        ⊎ ((t : Text) × (model ≡ (entry ++ codes " ") ++ t)))

abbrev pub SomeVariant : Text → List Text → Type 0
SomeVariant model [] = ⊥
SomeVariant model (e ∷ es) = IsVariant model e ⊎ SomeVariant model es

matches_model-IsVariant : (m e : Text) → matches_model m e ≡ true → IsVariant m e
matches_model-IsVariant m e h = elim (Bool-cases (text_eq m e)) [
  | inl same ↦ inl (text_eq-eq m e same)
  | inr differs ↦ elim (Bool-cases (starts_with (e ++ codes "-") m)) [
    | inl dash ↦ inr (inl (starts_with-split _ m dash))
    | inr no_dash ↦ inr (inr (starts_with-split _ m (ground arith)))
  ]
]

IsVariant-matches_model : (m e : Text) → IsVariant m e → matches_model m e ≡ true
IsVariant-matches_model m e (inl same) = rw same (ground (arith, text_eq_refl e))
IsVariant-matches_model m e (inr (inl (t, p))) =
    subst (λ x. matches_model x e ≡ true) (sym p)
      (ground (arith, starts_with-append (e ++ codes "-") t))
IsVariant-matches_model m e (inr (inr (t, p))) =
    subst (λ x. matches_model x e ≡ true) (sym p)
      (ground (arith, starts_with-append (e ++ codes " ") t))

any-SomeVariant : (m : Text) (es : List Text) → any (matches_model m) es ≡ true → SomeVariant m es
any-SomeVariant m [] h = cc
any-SomeVariant m (e ∷ es) h = elim (Bool-cases (matches_model m e)) [
  | inl here ↦ inl (matches_model-IsVariant m e here)
  | inr not_here ↦ inr (any-SomeVariant m es (ground arith))
]

SomeVariant-any : (m : Text) (es : List Text) → SomeVariant m es → any (matches_model m) es ≡ true
SomeVariant-any m [] h = absurd h
SomeVariant-any m (e ∷ es) (inl here) = rw (IsVariant-matches_model m e here)
SomeVariant-any m (e ∷ es) (inr later) = elim (Bool-cases (matches_model m e)) [
  | inl here ↦ rw here
  | inr not_here ↦ rw not_here (SomeVariant-any m es later)
]

-- A lock's model is in a table exactly when it is an entry, or an entry followed by a dash or a
-- blank and any suffix: a longer number without the separator is not.
pub model_in-iff_variant :
    (info : LockInfo) (models : List Text)
    → (model_in info models ≡ true) ↔ SomeVariant info.model models
unfolding model_in
model_in-iff_variant info models =
    (any-SomeVariant info.model models, SomeVariant-any info.model models)
