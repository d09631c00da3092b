-- ===== src/Lock/InfoLaws.antt =====
-- What the two passes of `lock_info` return.
use yalexs_ble.Prelude.{
  ℕ, suc, ◌≡◌, refl, sym, subst, ap, ◌⊎◌, ◌==◌, ◌++◌, all, Bool, true, false, not, ◌&&◌, ◌||◌, List,
  [], ◌∷◌, get_or, arith, Bool-cases, inl, inr, Text, codes, if◌then◌else◌,
}
use yalexs_ble.Errors.{ok}
use yalexs_ble.Const.{LockInfo}
use yalexs_ble.Lock.Info.{
  Read, absent, hangs, text, raises, Field, unread, missing, found, until_null, Pass, read_fields,
  is_known, model_known, info_passes, text_or, lock_info,
}

-- A read whose exception, if any, the pass handles.
abbrev pub is_handled : Read → Bool
is_handled (raises e) = false
is_handled _ = true

-- What a pass makes of a field by itself.
abbrev pub read_into : Read → Field → Field
read_into absent unread = missing
read_into (text s) unread = found (until_null s)
read_into _ f = f

-- The pass timed out at this field or before.
abbrev pub cut_off : Read → Field → Bool
cut_off hangs unread = true
cut_off _ f = false

abbrev pub read_all : (ℕ → Read) → ℕ → List Field → Pass
read_all reads place [] = record { fields = []; timed_out = false }
read_all reads place (f ∷ fields) =
    let rest = read_all reads (suc place) fields in
    let cut = cut_off (reads place) f in
    record {
      fields = read_into (reads place) f ∷ (if cut then fields else rest.fields);
      timed_out = cut || rest.timed_out;
    }

read_fields-read_all :
    (reads : ℕ → Read) (place : ℕ) (fields : List Field)
    → ((i : ℕ) → is_handled (reads i) ≡ true)
    → read_fields reads place fields ≡ ok (read_all reads place fields)
unfolding read_fields
read_fields-read_all reads place [] h = refl
read_fields-read_all reads place (unread ∷ fields) h =
    ground (arith, h place, read_fields-read_all reads (suc place) fields h)
read_fields-read_all reads place (missing ∷ fields) h =
    ground (arith, read_fields-read_all reads (suc place) fields h)
read_fields-read_all reads place (found s ∷ fields) h =
    ground (arith, read_fields-read_all reads (suc place) fields h)

-- The field at a place after a pass that handled everything: unchanged by a read that failed, by one
-- that was cut off and if it was known already.
abbrev pub Kept : Field → Field → Type 0
Kept before after = is_known before ≡ true → after ≡ before

read_into-Kept : (r : Read) (f : Field) → Kept f (read_into r f)
read_into-Kept absent unread h = cc
read_into-Kept r unread h = cc
read_into-Kept absent missing h = refl
read_into-Kept r missing h = refl
read_into-Kept absent (found s) h = refl
read_into-Kept r (found s) h = refl

either_head :
    (r : Read) (f : Field) (b : Bool) (xs ys : List Field)
    → get_or (if is_known f && b then f ∷ xs else read_into r f ∷ ys) 0 unread ≡ read_into r f
either_head r f b xs ys = elim (Bool-cases (is_known f)) [
  | inl known ↦ ground (arith, read_into-Kept r f known)
  | inr fresh ↦ rw fresh refl
]

-- No character of the text is a null.
abbrev pub HasNoNull : Text → Type 0
HasNoNull s = all (λ c. not (c == 0)) s ≡ true

-- A text up to its first null, or its end.
abbrev pub UpToNull : Text → Text → Type 0
UpToNull s model = HasNoNull model × ((s ≡ model) ⊎ (rest : Text) × (s ≡ model ++ 0 ∷ rest))

-- What the reads of the model in the two passes make of it.
abbrev pub ReadModel : Read → Read → Text → Type 0
ReadModel (text s) second model = UpToNull s model
ReadModel absent second model = model ≡ []
ReadModel first (text s) model = UpToNull s model
ReadModel first second model = model ≡ []

until_null-UpToNull : (s : Text) → UpToNull s (until_null s)
until_null-UpToNull [] = (refl, inl refl)
until_null-UpToNull (c ∷ s) = elim (Bool-cases (c == 0)) [
  | inl null ↦ let same : c ≡ 0 = ground arith in rw (null, same) (refl, inr (s, refl))
  | inr other ↦
      let (clean, cut) = until_null-UpToNull s in
      rw (other) (
        rw (other) clean,
        elim cut [
          | inl whole ↦ inl (ap (λ r. c ∷ r) whole)
          | inr (rest, split) ↦ inr (rest, ap (λ r. c ∷ r) split)
        ],
      )
]

-- The model after two passes.
abbrev pub model_read : (ℕ → ℕ → Read) → Field
model_read reads = read_into (reads 1 0) (read_into (reads 0 0) unread)

model_read-ReadModel :
    (first second : Read)
    → ReadModel first second (text_or (read_into second (read_into first unread)) (codes ""))
model_read-ReadModel (text s) absent = until_null-UpToNull s
model_read-ReadModel (text s) second = until_null-UpToNull s
model_read-ReadModel absent absent = refl
model_read-ReadModel absent second = refl
model_read-ReadModel first (text s) = until_null-UpToNull s
model_read-ReadModel first second = refl

module _ (reads : ℕ → ℕ → Read) (handled : (i j : ℕ) → is_handled (reads i j) ≡ true) where
  last_pass :
      (attempt : ℕ) (fields : List Field)
      → info_passes 1 attempt reads fields ≡ ok (read_all (reads attempt) 0 fields).fields
  unfolding info_passes
  last_pass attempt fields =
      ground (arith, read_fields-read_all (reads attempt) 0 fields (handled attempt))

  -- The fields at the end: the first pass's, or the second's over them.
  two_passes :
      (fields : List Field)
      → let once = read_all (reads 0) 0 fields in
        info_passes 2 0 reads fields
        ≡ ok (
            if model_known once.fields && not once.timed_out
            then once.fields
            else (read_all (reads 1) 0 once.fields).fields)
  unfolding info_passes
  two_passes fields =
      let first = read_fields-read_all (reads 0) 0 fields (handled 0) in
      rw (info_passes, first) (ground (arith, last_pass 1 (read_all (reads 0) 0 fields).fields))

  lock_info-model_read :
      (address : Text)
      → (info : LockInfo) × (lock_info true address reads ≡ ok info)
        × (info.model ≡ text_or (model_read reads) (codes ""))
  unfolding lock_info
  lock_info-model_read address =
      let start = unread ∷ unread ∷ unread ∷ [] in
      let once = read_all (reads 0) 0 start in
      let final =
        if model_known once.fields && not once.timed_out
        then once.fields
        else (read_all (reads 1) 0 once.fields).fields in
      (
        record {
          manufacturer = codes "Yale/August";
          model = text_or (get_or final 0 unread) (codes "");
          serial = text_or (get_or final 1 unread) address;
          firmware = text_or (get_or final 2 unread) (codes "Unknown");
        },
        rw (lock_info, two_passes start) refl,
        ap (λ f. text_or f (codes ""))
            (either_head (reads 1 0) (read_into (reads 0 0) unread) _ _ _),
      )

  -- On a connected lock whose reads fail at most in the ways that a pass handles, the probe always
  -- returns, and the model is what the two passes made of it: a text without nulls that the first
  -- read, or the second where the first failed or timed out, begins with, up to its end or a null;
  -- "" if neither read it or the characteristic is not there.
  pub lock_info-model :
      (address : Text)
      → (info : LockInfo) × (lock_info true address reads ≡ ok info)
        × ReadModel (reads 0 0) (reads 1 0) info.model
  lock_info-model address =
      let (info, returned, read) = lock_info-model_read address in
      (
        info,
        returned,
        subst (ReadModel (reads 0 0) (reads 1 0)) (sym read)
            (model_read-ReadModel (reads 0 0) (reads 1 0)),
      )
