-- ===== src/Util/CopyLaws.antt =====
-- Slices of a buffer that `_copy` has written to.
use yalexs_ble.Prelude.{
  ℕ, zero, suc, ◌+◌, ◌-◌, ◌≤◌, ◌≡◌, refl, sym, ap, ◌∙◌, List, [], ◌∷◌, ◌++◌, length, take, drop,
  slice, length-append, length-take, length-drop, take_all, arith,
}
use native.Mathlib.Nat.{sub-zero, zero-sub, zero-add, suc-add, suc-sub-suc}
use yalexs_ble.Util.Bytes.{copy}

module _ {ℓ} {A : Type ℓ} where
  take_nil : (n : ℕ) → let none_left : List A = [] in take n none_left ≡ none_left
  take_nil zero = refl
  take_nil (suc n) = refl

  slice-drop : (i j : ℕ) (xs : List A) → slice i j xs ≡ drop i (take j xs)
  slice-drop zero j xs = ap (λ n. take n xs) (sub-zero j)
  slice-drop (suc i) zero xs = ap (λ n. take n (drop (suc i) xs)) (zero-sub (suc i))
  slice-drop (suc i) (suc j) [] = take_nil (suc j - suc i)
  slice-drop (suc i) (suc j) (x ∷ xs) =
      ap (λ n. take n (drop i xs)) (suc-sub-suc j i) ∙ slice-drop i j xs

  pub take-append_le : (n : ℕ) (xs ys : List A) → n ≤ length xs → take n (xs ++ ys) ≡ take n xs
  take-append_le zero xs ys h = refl
  take-append_le (suc n) [] ys h = elim h [ ]
  take-append_le (suc n) (x ∷ xs) ys h = ap (λ r. x ∷ r) (take-append_le n xs ys (omega arith))

  pub take-take : (m n : ℕ) (xs : List A) → m ≤ n → take m (take n xs) ≡ take m xs
  take-take zero n xs h = refl
  take-take (suc m) zero xs h = elim h [ ]
  take-take (suc m) (suc n) [] h = refl
  take-take (suc m) (suc n) (x ∷ xs) h = ap (λ r. x ∷ r) (take-take m n xs (omega arith))

  take-append_add : (xs ys : List A) (k : ℕ) → take (length xs + k) (xs ++ ys) ≡ xs ++ take k ys
  take-append_add [] ys k = ap (λ n. take n ys) (zero-add k)
  take-append_add (x ∷ xs) ys k =
      ap (λ n. take n (x ∷ (xs ++ ys))) (suc-add (length xs) k)
      ∙ ap (λ r. x ∷ r) (take-append_add xs ys k)

  drop-append_at : (n : ℕ) (xs ys : List A) → length xs ≡ n → drop n (xs ++ ys) ≡ ys
  drop-append_at zero [] ys h = refl
  drop-append_at zero (x ∷ xs) ys h = absurd (omega arith)
  drop-append_at (suc n) [] ys h = absurd (omega arith)
  drop-append_at (suc n) (x ∷ xs) ys h = drop-append_at n xs ys (omega arith)

module _ (dest src : List ℕ) (loc : ℕ) where
  pub length-copy : loc + length src ≤ length dest → length (copy dest src loc) ≡ length dest
  length-copy h = omega (
    arith,
    length-append (take loc dest) (src ++ drop (loc + length src) dest),
    length-append src (drop (loc + length src) dest),
    length-take loc dest,
    length-drop (loc + length src) dest,
  )

  -- What stands before the copied part is unchanged.
  pub slice-copy_before :
      (i j : ℕ) → j ≤ loc → loc ≤ length dest → slice i j (copy dest src loc) ≡ slice i j dest
  slice-copy_before i j le fits =
      slice-drop i j (copy dest src loc)
      ∙ (ap (drop i) (
            take-append_le j (take loc dest) _ (omega (arith, length-take loc dest))
            ∙ take-take j loc dest le)
          ∙ sym (slice-drop i j dest))

  -- The copied part itself.
  pub slice-copy_self : loc ≤ length dest → slice loc (loc + length src) (copy dest src loc) ≡ src
  slice-copy_self fits =
      let at_loc : length (take loc dest) ≡ loc = omega (arith, length-take loc dest) in
      let rest = drop (loc + length src) dest in
      ap (take (loc + length src - loc)) (drop-append_at loc (take loc dest) (src ++ rest) at_loc)
      ∙ (ap (λ n. take n (src ++ rest)) (omega arith)
          ∙ (take-append_le (length src) src rest (omega arith)
              ∙ take_all src (length src) (omega arith)))
