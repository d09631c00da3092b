-- ===== src/Util/NameLaws.antt =====
-- Local names: their length, and the serial number that a local name stands in.
use yalexs_ble.Prelude.{
  ◌-◌, ◌≤◌, ◌≡◌, true, some, Text, length, arith, drop, slice, length-append, length-take,
  length-drop, [], ◌∷◌, refl,
}
use yalexs_ble.Util.Names.{serial_to_local_name, local_name_to_serial, local_name_is_unique}

length-serial_to_local_name :
    (serial : Text) → 5 ≤ length serial → length (serial_to_local_name serial) ≡ 7
unfolding serial_to_local_name
length-serial_to_local_name serial h = omega (
  arith,
  length-append (slice 0 2 serial) (drop (length serial - 5) serial),
  length-take 2 serial,
  length-drop (length serial - 5) serial,
)

-- The local name of any serial number of at least five characters is unique.
pub serial_to_local_name_unique :
    (serial : Text)
    → 5 ≤ length serial
    → local_name_is_unique (some (serial_to_local_name serial)) ≡ true
unfolding local_name_is_unique
serial_to_local_name_unique serial h =
    unique_of_length (serial_to_local_name serial) (length-serial_to_local_name serial h)
  where
    unique_of_length : (name : Text) → length name ≡ 7 → local_name_is_unique (some name) ≡ true
    unique_of_length [] e = absurd (omega arith)
    unique_of_length (c ∷ name) e = ground arith

-- A unique local name is the local name of the serial number made from it.
pub local_name_to_serial-serial_to_local_name :
    (name : Text)
    → local_name_is_unique (some name) ≡ true
    → serial_to_local_name (local_name_to_serial name) ≡ name
unfolding local_name_is_unique serial_to_local_name local_name_to_serial
local_name_to_serial-serial_to_local_name (a ∷ b ∷ c ∷ d ∷ e ∷ f ∷ g ∷ []) h = refl
local_name_to_serial-serial_to_local_name name h = absurd (ground arith)
