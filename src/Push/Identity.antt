-- ===== src/Push/Identity.antt =====
-- push.py: which lock a watcher is for: the checks of `__init__`, the names and the address, and which
-- advertisement is the lock's own. An empty text counts as none, as in the source.
use yalexs_ble.Prelude.{
  Bool, true, false, not, ◌&&◌, Option, none, some, is_some, is_empty, if◌then◌else◌, Text, text_eq,
}
use yalexs_ble.Errors.{value_error, assertion_error, Result, ok, err, ◌>>=◌}
use yalexs_ble.Util.Names.{local_name_is_unique}

-- `device` is the address of `_ble_device`.
pub record Identity : Type 0 where
  pub local_name : Option Text
  pub name : Option Text
  pub address : Option Text
  pub device : Option Text

-- `bool(s)` for a text that may be None.
abbrev pub is_given : Option Text → Bool
is_given none = false
is_given (some s) = not (is_empty s)

-- The two checks of `__init__`, with the address of the device that it is given.
unfoldable pub identify : Option Text → Option Text → Option Text → Result Identity
identify local_name address device =
    if not (is_some local_name) && not (is_some address)
    then err value_error
    else if not (is_given address) && not (local_name_is_unique local_name)
    then err value_error
    else ok (record { local_name = local_name; name = none; address = address; device = device })

-- The property `address`; the assertion fails where neither is known.
unfoldable pub address_of : Identity → Result Text
address_of i = elim i.device [
  | some address ↦ ok address
  | none ↦ elim i.address [ none ↦ err assertion_error | some address ↦ ok address ]
]

-- The property `name`.
unfoldable pub name_of : Identity → Result Text
unfolding address_of
name_of i = elim i.name [
  | none ↦
      if local_name_is_unique i.local_name && is_given i.local_name
      then (elim i.local_name [ none ↦ address_of i | some s ↦ ok s ])
      else address_of i
  | some s ↦
      if not (is_empty s)
      then ok s
      else if local_name_is_unique i.local_name && is_given i.local_name
      then (elim i.local_name [ none ↦ address_of i | some s' ↦ ok s' ])
      else address_of i
]

-- `set_ble_device`
unfoldable pub set_ble_device : Text → Identity → Identity
set_ble_device address i = record i { address = some address; device = some address }

-- `a == b`, each None or a text.
abbrev pub same_name : Option Text → Option Text → Bool
same_name none none = true
same_name (some s) (some t) = text_eq s t
same_name _ _ = false

-- `self.address and self.address == device`
abbrev pub matches_address : Text → Text → Bool
matches_address device address = not (is_empty address) && text_eq address device

-- The test of `update_advertisement`: the device's address and the advertisement's local name.
unfoldable pub accepts : Text → Option Text → Identity → Result Bool
unfolding address_of
accepts device local_name i =
    if local_name_is_unique i.local_name && same_name i.local_name local_name
    then ok true
    else (do address ← address_of i; ok (matches_address device address))
