-- ===== src/Util/Names.antt =====
-- util.py: the local name of a lock and its serial number, and which names are unique.
use yalexs_ble.Prelude.{
  ℕ, ◌-◌, Bool, not, ◌&&◌, Option, none, some, ◌++◌, Text, codes, length, drop, slice, is_empty,
  ◌==◌, if◌then◌else◌, false,
}

abbrev pub unique_local_name_len : ℕ
unique_local_name_len = 7

-- `serial[0:2]` and `serial[-5:]`, which is the whole text where it is shorter than five.
unfoldable pub serial_to_local_name : Text → Text
serial_to_local_name serial = slice 0 2 serial ++ drop (length serial - 5) serial

unfoldable pub local_name_to_serial : Text → Text
local_name_to_serial serial = slice 0 2 serial ++ (codes "XXX" ++ drop 2 serial)

unfoldable pub local_name_is_unique : Option Text → Bool
local_name_is_unique none = false
local_name_is_unique (some local_name) =
    not (is_empty local_name) && length local_name == unique_local_name_len

-- The local name is `None` where the advertisement has none; it is then not unique.
unfoldable pub unique_id_from_local_name_address : Option Text → Text → Text
unfolding local_name_is_unique
unique_id_from_local_name_address none address = address
unique_id_from_local_name_address (some local_name) address =
    if local_name_is_unique (some local_name) then local_name else address
