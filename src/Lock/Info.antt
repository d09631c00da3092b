-- ===== src/Lock/Info.antt =====
-- lock.py: `lock_info`, the two passes over the device's characteristics. What a read does in a pass
-- is given by the pass and the place of the characteristic, model, serial, firmware. A text is what
-- `bytes.decode` returns; a read that is not UTF-8 is one that failed.
use yalexs_ble.Prelude.{
  ℕ, zero, suc, Bool, true, false, not, ◌&&◌, List, [], ◌∷◌, get_or, ◌==◌, if◌then◌else◌, Text,
  codes,
}
use yalexs_ble.Errors.{Error, disconnected_error, Result, ok, err, ◌>>=◌}
use yalexs_ble.Const.{LockInfo}

-- `LOCK_INFO_ATTEMPTS`
abbrev pub lock_info_attempts : ℕ
lock_info_attempts = 2

-- The characteristic is not there; its text; BleakError or UnicodeDecodeError; the pass's timeout
-- fires; any other exception.
pub data Read : Type 0 where
  absent unreadable hangs : Read
  text : Text → Read
  raises : Error → Read

-- Whether a characteristic is in `results`, in `missing` or in neither.
pub data Field : Type 0 where
  unread missing : Field
  found : Text → Field

-- `.split("\0")[0]`
abbrev pub until_null : Text → Text
until_null [] = []
until_null (c ∷ s) = if c == 0 then [] else c ∷ until_null s

-- The fields after a pass, and whether it timed out.
pub record Pass : Type 0 where
  pub fields : List Field
  pub timed_out : Bool

abbrev pub after_field : Field → Result Pass → Result Pass
after_field f (err e) = err e
after_field f (ok pass) = ok (record pass { fields = f ∷ pass.fields })

-- The body of the `async with`; `place` counts the characteristics gone by.
unfoldable pub read_fields : (ℕ → Read) → ℕ → List Field → Result Pass
read_fields reads place [] = ok (record { fields = []; timed_out = false })
read_fields reads place (unread ∷ fields) = elim (reads place) [
  | absent ↦ after_field missing (read_fields reads (suc place) fields)
  | unreadable ↦ after_field unread (read_fields reads (suc place) fields)
  | hangs ↦ ok (record { fields = unread ∷ fields; timed_out = true })
  | text s ↦ after_field (found (until_null s)) (read_fields reads (suc place) fields)
  | raises e ↦ err e
]
read_fields reads place (missing ∷ fields) =
    after_field missing (read_fields reads (suc place) fields)
read_fields reads place (found s ∷ fields) =
    after_field (found s) (read_fields reads (suc place) fields)

abbrev pub is_known : Field → Bool
is_known unread = false
is_known missing = true
is_known (found _) = true

-- `model_known`; the model is the first field.
abbrev pub model_known : List Field → Bool
model_known fields = is_known (get_or fields 0 unread)

-- The loop, with the passes left and the number of the next one.
unfoldable pub info_passes : ℕ → ℕ → (ℕ → ℕ → Read) → List Field → Result (List Field)
info_passes zero attempt reads fields = ok fields
info_passes (suc left) attempt reads fields = do
  pass ← read_fields (reads attempt) 0 fields
  let rest = info_passes left (suc attempt) reads pass.fields
  if model_known pass.fields && not pass.timed_out then ok pass.fields else rest

-- `results.get(uuid, default)`
abbrev pub text_or : Field → Text → Text
text_or (found s) default = s
text_or _ default = default

-- `address` is that of the device, the fallback serial.
unfoldable pub lock_info : Bool → Text → (ℕ → ℕ → Read) → Result LockInfo
unfolding info_passes
lock_info is_connected address reads = if not is_connected then err disconnected_error else do
  fields ← info_passes lock_info_attempts 0 reads (unread ∷ unread ∷ unread ∷ [])
  ok (record {
    manufacturer = codes "Yale/August";
    model = text_or (get_or fields 0 unread) (codes "");
    serial = text_or (get_or fields 1 unread) address;
    firmware = text_or (get_or fields 2 unread) (codes "Unknown");
  })
