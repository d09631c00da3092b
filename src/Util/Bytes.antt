-- ===== src/Util/Bytes.antt =====
-- util.py: byte buffers as lists of numbers, `_bytes_to_int`, `_int_to_bytes` and `_copy`. Python's
-- reads and writes of one byte raise on a bad index, and a write also on a value past 255.
use yalexs_ble.Prelude.{
  ℕ, zero, suc, ◌+◌, ◌*◌, ◌/◌, ◌%◌, ◌^◌, ◌<◌, ◌||◌, none, some, List, [], ◌∷◌, ◌++◌, length,
  get_elem?, set, take, drop, ltb, leb, if◌then◌else◌,
}
use yalexs_ble.Errors.{Result, ok, err, value_error, index_error, overflow_error, ◌>>◌, raise_if}

-- Every element fits a byte.
abbrev pub AllBytes : List ℕ → Type 0
AllBytes [] = Unit
AllBytes (b ∷ bs) = (b < 256) × AllBytes bs

-- `buf[i]`
abbrev pub index : List ℕ → ℕ → Result ℕ
index buf i = elim (get_elem? buf i) [ none ↦ err index_error | some b ↦ ok b ]

-- `buf[i] = v`
abbrev pub store : List ℕ → ℕ → ℕ → Result (List ℕ)
store buf i v =
    if leb (length buf) i
    then err index_error
    else if leb 256 v
    then err value_error
    else ok (set buf i v)

-- `_bytes_to_int`: little-endian, unsigned.
abbrev pub bytes_to_int : List ℕ → ℕ
bytes_to_int [] = 0
bytes_to_int (b ∷ bs) = b + 256 * bytes_to_int bs

-- The `length` low bytes of a number, as `int.to_bytes` lays them out.
abbrev pub to_bytes : ℕ → ℕ → List ℕ
to_bytes value zero = []
to_bytes value (suc n) = (value % 256) ∷ to_bytes (value / 256) n

-- `_int_to_bytes`
unfoldable pub int_to_bytes : ℕ → ℕ → Result (List ℕ)
int_to_bytes value n = do
  raise_if (ltb n 1 || ltb 8 n) value_error
  raise_if (leb (256 ^ n) value) overflow_error
  ok (to_bytes value n)

-- `_copy`: the slice assignment `dest[loc : loc + len(src)] = src`.
abbrev pub copy : List ℕ → List ℕ → ℕ → List ℕ
copy dest src loc = take loc dest ++ (src ++ drop (loc + length src) dest)
