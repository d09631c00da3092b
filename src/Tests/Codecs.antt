-- ===== src/Tests/Codecs.antt =====
-- Runs of the codecs and the frames.
use yalexs_ble.Prelude.{ℕ, ◌≡◌, refl, ◌^◌, List, length, slice, ◌↔◌, arith}
use yalexs_ble.Errors.{ok}
use yalexs_ble.Util.Bytes.{bytes_to_int}
use yalexs_ble.Util.Checksum.{negate_mod}
use yalexs_ble.Util.ChecksumLaws.{covered_words}
use yalexs_ble.SecureSession.{write_checksum, validate_response}
use yalexs_ble.SecureSession.Laws.{secure_validate_iff, secure_write_checksum-validates}
use yalexs_ble.Lock.Battery.{convert_voltage_to_percentage}
use yalexs_ble.Lock.BatteryLaws.{
  percentage_below, ascending_table, convert_voltage_to_percentage-entry,
}
use yalexs_ble.Tests.Data.{status_frame}

secure_validate_iff_example :
    (validate_response status_frame ≡ ok tt)
    ↔ (bytes_to_int (slice 12 16 status_frame) ≡ negate_mod (covered_words status_frame) (2 ^ 32))
secure_validate_iff_example = secure_validate_iff status_frame (omega arith)

secure_write_checksum-validates_example :
    (sealed : List ℕ) × (write_checksum status_frame ≡ ok sealed)
    × (length sealed ≡ 18)
    × (validate_response sealed ≡ ok tt)
secure_write_checksum-validates_example = secure_write_checksum-validates status_frame refl

convert_voltage_to_percentage-entry_example :
    convert_voltage_to_percentage 150000 ≡ percentage_below 0 ascending_table 150000
convert_voltage_to_percentage-entry_example = convert_voltage_to_percentage-entry 150000
