-- ===== src/Session/FrameLaws.antt =====
-- Plain frames: a sealed command has checksum zero, and which responses are valid.
use yalexs_ble.Prelude.{
  ℕ, zero, suc, ◌+◌, ◌%◌, ◌<◌, ◌≡◌, refl, ap, ◌∙◌, subst, ◌↔◌, ◌⊎◌, inl, inr, some, List, [], ◌∷◌,
  length, set, take_all, get_or, length-set, get_elem?-get_or, arith, get_elem?,
}
use yalexs_ble.Errors.{ok}
use yalexs_ble.Util.Bytes.{store}
use yalexs_ble.Util.Checksum.{sum, simple_checksum}
use yalexs_ble.Util.ChecksumLaws.{simple_checksum-balances}
use yalexs_ble.Session.Frame.{build_operation_command, write_checksum, validate_response}

sum-set : (l : List ℕ) (i v : ℕ) → i < length l → sum (set l i v) + get_or l i 0 ≡ sum l + v
sum-set [] i v h = elim h [ ]
sum-set (x ∷ l) zero v h = omega arith
sum-set (x ∷ l) (suc i) v h = omega (arith, sum-set l i v (omega arith))

get_or-set_self : (l : List ℕ) (i v : ℕ) → i < length l → get_or (set l i v) i 0 ≡ v
get_or-set_self [] i v h = elim h [ ]
get_or-set_self (x ∷ l) zero v h = refl
get_or-set_self (x ∷ l) (suc i) v h = get_or-set_self l i v (omega arith)

pub store-ok :
    (buf : List ℕ) (i v : ℕ) → i < length buf → v < 256 → store buf i v ≡ ok (set buf i v)
store-ok buf i v h k = ground arith

simple_checksum-full :
    (buf : List ℕ)
    → length buf ≡ 18
    → (c : ℕ) × (simple_checksum buf ≡ ok c) × (c < 256) × ((sum buf + c) % 256 ≡ 0)
simple_checksum-full buf h =
    let (c, e, lt, balanced) = simple_checksum-balances buf (omega arith) in
    (c, e, lt, subst (λ b. (sum b + c) % 256 ≡ 0) (take_all buf 18 (omega arith)) balanced)

-- A checksum is zero exactly when the bytes of the frame add up to a multiple of 256.
pub simple_checksum-zero :
    (buf : List ℕ) → length buf ≡ 18 → sum buf % 256 ≡ 0 → simple_checksum buf ≡ ok 0
simple_checksum-zero buf h z =
    let (c, e, lt, balanced) = simple_checksum-full buf h in e ∙ ap ok (omega arith)

-- Sealing a command of frame length always succeeds: it changes the checksum byte alone, and the
-- checksum over the sealed command is zero.
pub write_checksum-seals :
    (command : List ℕ)
    → length command ≡ 18
    → (c : ℕ) × (write_checksum command ≡ ok (set (set command 3 0) 3 c))
      × (c < 256)
      × (simple_checksum (set (set command 3 0) 3 c) ≡ ok 0)
unfolding write_checksum
write_checksum-seals command h =
    let cleared = set command 3 0 in
    let len : length cleared ≡ 18 = length-set command 3 0 ∙ h in
    let (c, e, lt, balanced) = simple_checksum-full cleared len in
    (
      c,
      rw (store-ok command 3 0 (omega arith) (omega arith), e)
          (store-ok cleared 3 c (omega arith) lt),
      lt,
      simple_checksum-zero (set cleared 3 c) (length-set cleared 3 c ∙ len) (
          omega
            (arith, sum-set cleared 3 c (omega arith), get_or-set_self command 3 0 (omega arith))),
    )

validate_of_parts :
    (response : List ℕ) {c f : ℕ}
    → simple_checksum response ≡ ok c
    → get_elem? response 0 ≡ some f
    → c ≡ 0
    → (f ≡ 0xBB) ⊎ (f ≡ 0xAA)
    → validate_response response ≡ ok tt
unfolding validate_response
validate_of_parts response e first zero_sum (inl bb) = ground arith
validate_of_parts response e first zero_sum (inr aa) = ground arith

parts_of_validate :
    (response : List ℕ) {c f : ℕ}
    → simple_checksum response ≡ ok c
    → get_elem? response 0 ≡ some f
    → validate_response response ≡ ok tt
    → (c ≡ 0) × ((f ≡ 0xBB) ⊎ (f ≡ 0xAA))
unfolding validate_response
parts_of_validate response e first valid = ground arith

-- Exactly the 18-byte frames with checksum zero and the flag 0xBB or 0xAA are valid responses.
pub validate_response_iff :
    (response : List ℕ)
    → length response ≡ 18
    → (validate_response response ≡ ok tt)
      ↔ ((sum response % 256 ≡ 0) × ((get_or response 0 0 ≡ 0xBB) ⊎ (get_or response 0 0 ≡ 0xAA)))
unfolding validate_response
validate_response_iff response h =
    let (c, e, lt, balanced) = simple_checksum-full response h in
    let first : get_elem? response 0 ≡ some (get_or response 0 0) =
      get_elem?-get_or response 0 0 (omega arith) in
    (
      λ valid. let (z, flag) = parts_of_validate response e first valid in (omega arith, flag),
      λ parts. validate_of_parts response e first (omega arith) parts.1,
    )

-- A command built for an opcode and an operation byte is an 18-byte frame that carries them at
-- offsets 1 and 4 behind the marker 0xEE, with the key marker 2 at offset 16 and zeros elsewhere.
pub build_operation_command-frame :
    (opcode cmd_byte : ℕ)
    → opcode < 256
    → cmd_byte < 256
    → build_operation_command opcode cmd_byte
      ≡ ok (
          0xEE ∷ opcode ∷ 0 ∷ 0 ∷ cmd_byte ∷ 0 ∷ 0 ∷ 0 ∷ 0 ∷ 0 ∷ 0 ∷ 0 ∷ 0 ∷ 0 ∷ 0 ∷ 0 ∷ 2 ∷ 0 ∷ [])
unfolding build_operation_command
build_operation_command-frame opcode cmd_byte h k = ground arith
