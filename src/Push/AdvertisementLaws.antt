-- ===== src/Push/AdvertisementLaws.antt =====
-- Which payload of an advertisement is read, and that a repeated advertisement asks for nothing.
use yalexs_ble.Prelude.{
  ℕ, ◌≡◌, refl, ◌≤◌, ◌<◌, Bool, false, Option, none, some, List, [], ◌∷◌, ◌==◌, arith, Bool-cases,
  inl, inr,
}
use yalexs_ble.Const.{
  apple_mfr_id, yale_mfr_id, assa_abloy_mfr_id, hap_first_byte, hap_encrypted_first_byte,
}
use yalexs_ble.Push.Advertisement.{
  payload_of, payload_rank, first_of_least, with_id, select_yale_payload, get_homekit_state_num,
  Advertised, read_hk_state, read_apple_payload, read_yale_payload, read_advertisement,
}

-- The rank of a payload that may be missing; a missing one ranks last.
abbrev pub rank_of : Option (List ℕ) → ℕ
rank_of none = 3
rank_of (some payload) = payload_rank payload

abbrev pub selected_rank : Option (ℕ × List ℕ) → ℕ
selected_rank none = 3
selected_rank (some (id, payload)) = payload_rank payload

payload_rank-bound : (payload : List ℕ) → payload_rank payload < 3
payload_rank-bound [] = omega arith
payload_rank-bound (b ∷ []) = omega arith
payload_rank-bound (b ∷ c ∷ rest) = omega arith

least_rank :
    (p q : Option (List ℕ)) (i j : ℕ)
    → (selected_rank (first_of_least (with_id i p) (with_id j q)) ≤ rank_of p)
      × (selected_rank (first_of_least (with_id i p) (with_id j q)) ≤ rank_of q)
least_rank none none i j = (omega arith, omega arith)
least_rank none (some q) i j = (omega (arith, payload_rank-bound q), omega arith)
least_rank (some p) none i j = (omega arith, omega (arith, payload_rank-bound p))
least_rank (some p) (some q) i j = ground arith

-- The payload chosen ranks no later than the payload under either Yale company ID: a one-byte
-- payload is chosen where there is one, else a longer one, else an empty one, else none.
pub select_yale_payload-least :
    (mfr_data : List (ℕ × List ℕ))
    → (selected_rank (select_yale_payload mfr_data) ≤ rank_of (payload_of mfr_data yale_mfr_id))
      × (selected_rank (select_yale_payload mfr_data)
          ≤ rank_of (payload_of mfr_data assa_abloy_mfr_id))
unfolding select_yale_payload
select_yale_payload-least mfr_data =
    least_rank (payload_of mfr_data yale_mfr_id) (payload_of mfr_data assa_abloy_mfr_id) yale_mfr_id
      assa_abloy_mfr_id

hk_repeated :
    (s : Option ℕ) (a a' : Advertised)
    → a'.last_hk_state ≡ (read_hk_state s a).1.last_hk_state
    → (read_hk_state s a').0 ≡ 0
unfolding read_hk_state
hk_repeated none a a' h = refl
hk_repeated (some v) a a' h = ground arith

-- A HomeKit payload whose state cannot be read.
abbrev pub is_encrypted : Option (List ℕ) → Bool
is_encrypted none = false
is_encrypted (some []) = false
is_encrypted (some (first_byte ∷ rest)) = first_byte == hap_encrypted_first_byte

apple_repeated :
    (p : Option (List ℕ)) (a a' : Advertised)
    → is_encrypted p ≡ false
    → a'.last_hk_state ≡ (read_apple_payload p a).1.last_hk_state
    → (read_apple_payload p a').0 ≡ 0
unfolding read_apple_payload
apple_repeated none a a' clear h = refl
apple_repeated (some []) a a' clear h = refl
apple_repeated (some (b ∷ rest)) a a' clear h = elim (Bool-cases (b == hap_first_byte)) [
  | inl hap ↦ rw (hap) (hk_repeated (get_homekit_state_num (b ∷ rest)) a a' (rw (hap) at h))
  | inr other ↦ rw (other, clear) refl
]

read_hk_state-keeps :
    (s : Option ℕ) (a : Advertised) → (read_hk_state s a).1.last_adv_value ≡ a.last_adv_value
unfolding read_hk_state
read_hk_state-keeps none a = refl
read_hk_state-keeps (some v) a = ground arith

read_apple_payload-keeps :
    (p : Option (List ℕ)) (a : Advertised)
    → (read_apple_payload p a).1.last_adv_value ≡ a.last_adv_value
unfolding read_apple_payload
read_apple_payload-keeps none a = refl
read_apple_payload-keeps (some []) a = refl
read_apple_payload-keeps (some (b ∷ rest)) a =
    ground (arith, read_hk_state-keeps (get_homekit_state_num (b ∷ rest)) a)

read_yale_payload-keeps :
    (n : ℕ) (q : Option (ℕ × List ℕ)) (a : Advertised)
    → (read_yale_payload n q a).1.last_hk_state ≡ a.last_hk_state
unfolding read_yale_payload
read_yale_payload-keeps n none a = refl
read_yale_payload-keeps n (some (id, [])) a = refl
read_yale_payload-keeps n (some (id, current ∷ rest)) a = ground arith

yale_repeated :
    (n : ℕ) (q : Option (ℕ × List ℕ)) (a a' : Advertised)
    → a'.last_adv_value ≡ (read_yale_payload n q a).1.last_adv_value
    → (read_yale_payload 0 q a').0 ≡ 0
unfolding read_yale_payload
yale_repeated n none a a' h = refl
yale_repeated n (some (id, [])) a a' h = refl
yale_repeated n (some (id, current ∷ rest)) a a' h = ground arith

-- An advertisement that is received again asks for no update, whatever it asked for the first time,
-- unless its HomeKit payload is encrypted.
pub read_advertisement-repeated :
    (mfr_data : List (ℕ × List ℕ)) (a : Advertised)
    → is_encrypted (payload_of mfr_data apple_mfr_id) ≡ false
    → (read_advertisement mfr_data (read_advertisement mfr_data a).1).0 ≡ 0
unfolding read_advertisement
read_advertisement-repeated mfr_data a clear =
    let p = payload_of mfr_data apple_mfr_id in
    let q = select_yale_payload mfr_data in
    let (n, a1) = read_apple_payload p a in
    let a2 = (read_yale_payload n q a1).1 in
    let quiet = apple_repeated p a a2 clear (read_yale_payload-keeps n q a1) in
    let a3 = (read_apple_payload p a2).1 in
    rw (quiet) (yale_repeated n q a1 a3 (read_apple_payload-keeps p a2))
