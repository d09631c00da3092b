-- ===== src/Push/Advertisement.antt =====
-- push.py: what an advertisement says. Manufacturer data is a list of payloads by company ID, each ID
-- at most once. The result is the delay asked for; `UpdateAdvertisement` has the test that comes first
-- and the scheduler's call that comes last.
use yalexs_ble.Prelude.{
  ℕ, ◌+◌, ◌*◌, Bool, true, false, not, ◌&&◌, ◌||◌, Option, none, some, List, [], ◌∷◌, length,
  get_or, is_empty, ltb, ◌==◌, if◌then◌else◌,
}
use yalexs_ble.Const.{
  apple_mfr_id, yale_mfr_id, assa_abloy_mfr_id, hap_first_byte, hap_encrypted_first_byte,
}
use yalexs_ble.Push.Scheduler.{hk_update_coalesce}

-- `ADV_UPDATE_COALESCE_SECONDS`
abbrev pub adv_update_coalesce : ℕ
adv_update_coalesce = 50

-- `FIRST_UPDATE_COALESCE_SECONDS`
abbrev pub first_update_coalesce : ℕ
first_update_coalesce = 10

-- `mfr_data.get(id)`
abbrev pub payload_of : List (ℕ × List ℕ) → ℕ → Option (List ℕ)
payload_of [] id = none
payload_of ((company, payload) ∷ rest) id =
    if company == id then some payload else payload_of rest id

-- The place of a payload in the order of `_select_yale_payload`: one byte, else some, else none.
abbrev pub payload_rank : List ℕ → ℕ
payload_rank (b ∷ []) = 0
payload_rank (b ∷ c ∷ rest) = 1
payload_rank [] = 2

-- `min` on the payloads present, by rank; the first of equals wins.
abbrev pub first_of_least : Option (ℕ × List ℕ) → Option (ℕ × List ℕ) → Option (ℕ × List ℕ)
first_of_least none other = other
first_of_least (some p) none = some p
first_of_least (some p) (some q) =
    if ltb (payload_rank q.1) (payload_rank p.1) then some q else some p

abbrev pub with_id : ℕ → Option (List ℕ) → Option (ℕ × List ℕ)
with_id id none = none
with_id id (some payload) = some (id, payload)

-- `_select_yale_payload`: `none` stands for `(None, None)`.
unfoldable pub select_yale_payload : List (ℕ × List ℕ) → Option (ℕ × List ℕ)
select_yale_payload mfr_data =
    first_of_least (with_id yale_mfr_id (payload_of mfr_data yale_mfr_id))
      (with_id assa_abloy_mfr_id (payload_of mfr_data assa_abloy_mfr_id))

-- `get_homekit_state_num`: the 16-bit number at byte 11, if the 6-byte record at byte 9 is whole.
unfoldable pub get_homekit_state_num : List ℕ → Option ℕ
get_homekit_state_num payload =
    if ltb (length payload) 15 then none else some (get_or payload 11 0 + 256 * get_or payload 12 0)

-- `_last_adv_value` and `_last_hk_state`; `none` is their -1.
pub record Advertised : Type 0 where
  pub last_adv_value : Option ℕ
  pub last_hk_state : Option ℕ

-- `VALID_ADV_VALUES`
abbrev pub is_valid_adv_value : ℕ → Bool
is_valid_adv_value v = v == 0 || v == 1

-- `a != b`, where `a` is a number seen before.
abbrev pub differs : Option ℕ → ℕ → Bool
differs none v = true
differs (some w) v = not (w == v)

-- The branch of a HomeKit payload: the delay, 0 for none, and the state.
unfoldable pub read_hk_state : Option ℕ → Advertised → ℕ × Advertised
read_hk_state none a = (0, a)
read_hk_state (some hk_state) a = elim a.last_hk_state [
  | none ↦ (first_update_coalesce, record a { last_hk_state = some hk_state })
  | some last ↦ (
    if not (hk_state == last) then hk_update_coalesce else 0,
    record a { last_hk_state = some hk_state },
  )
]

unfoldable pub read_apple_payload : Option (List ℕ) → Advertised → ℕ × Advertised
unfolding read_hk_state
read_apple_payload none a = (0, a)
read_apple_payload (some []) a = (0, a)
read_apple_payload (some (first_byte ∷ rest)) a =
    if first_byte == hap_first_byte
    then read_hk_state (get_homekit_state_num (first_byte ∷ rest)) a
    else if first_byte == hap_encrypted_first_byte
    then (hk_update_coalesce, a)
    else (0, a)

-- The delay that a Yale value asks for by itself.
abbrev pub value_delay : Option ℕ → ℕ → ℕ
value_delay none current = first_update_coalesce
value_delay (some last) current =
    if is_valid_adv_value current && not (current == last) then adv_update_coalesce else 0

abbrev pub is_first : Option ℕ → Bool
is_first none = true
is_first (some _) = false

-- The branch of the Yale payload: a longer one counts only before any value was seen.
unfoldable pub read_yale_payload : ℕ → Option (ℕ × List ℕ) → Advertised → ℕ × Advertised
read_yale_payload next_update none a = (next_update, a)
read_yale_payload next_update (some (id, [])) a = (next_update, a)
read_yale_payload next_update (some (id, current ∷ rest)) a =
    if is_empty rest || is_first a.last_adv_value
    then (
      if next_update == 0 then value_delay a.last_adv_value current else next_update,
      record a { last_adv_value = some current },
    )
    else (next_update, a)

-- `update_advertisement`, up to the delay: 0 asks for no update.
unfoldable pub read_advertisement : List (ℕ × List ℕ) → Advertised → ℕ × Advertised
unfolding read_apple_payload read_yale_payload
read_advertisement mfr_data a =
    let (next_update, a') = read_apple_payload (payload_of mfr_data apple_mfr_id) a in
    read_yale_payload next_update (select_yale_payload mfr_data) a'

-- The test that keeps a connection up instead of scheduling: the update is pushed over the link.
unfoldable pub waits_for_push : Bool → Bool → ℕ → ℕ → Bool
waits_for_push is_connected first_connection since_operation pending_delay =
    is_connected && (not first_connection && ltb (since_operation + pending_delay) 25000)
