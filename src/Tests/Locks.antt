-- ===== src/Tests/Locks.antt =====
-- Runs of the lock's decoders and commands.
use yalexs_ble.Prelude.{
  ℕ, suc, zero, ◌≡◌, refl, ◌<◌, true, false, List, [], ◌∷◌, ◌++◌, length, replicate, codes, arith,
}
use yalexs_ble.Errors.{activity_log_overrun_error, ok, err}
use yalexs_ble.Util.Pin.{encode_keycode_pin}
use yalexs_ble.Lock.Activity.{drain_lock_activity}
use yalexs_ble.Lock.ActivityLaws.{
  activities, answers_of, drained, is_marker, drain_lock_activity-ends,
  drain_lock_activity-overruns,
}
use yalexs_ble.Lock.Wire.{Link}
use yalexs_ble.Lock.Keycode.{set_keycode}
use yalexs_ble.Lock.KeycodeLaws.{run_all, program_frames, set_keycode-run_all}
use yalexs_ble.Lock.Handshake.{setup_session}
use yalexs_ble.Lock.HandshakeLaws.{Keyed, setup_session-Keyed}

-- A door record, then the end marker.
abbrev door_record : List ℕ
door_record = 0xBB ∷ 0x2D ∷ 0 ∷ 0 ∷ 0x20 ∷ 1 ∷ 2 ∷ 3 ∷ 4 ∷ 1 ∷ replicate 8 0

abbrev end_record : List ℕ
end_record = 0xBB ∷ 0x2D ∷ 0 ∷ 0 ∷ 0x80 ∷ replicate 13 0

abbrev short_log : ℕ → List ℕ
short_log zero = door_record
short_log (suc i) = end_record

abbrev endless_log : ℕ → List ℕ
endless_log i = door_record

full_short_log : (i : ℕ) → length (short_log i) ≡ 18
full_short_log zero = refl
full_short_log (suc i) = refl

first_is_record : (j : ℕ) → j < 1 → is_marker (short_log j) ≡ false
first_is_record zero h = refl
first_is_record (suc j) h = absurd (omega arith)

drain_lock_activity-ends_example :
    drain_lock_activity true (answers_of short_log) ≡ drained (activities short_log 0 1) 2 (ok tt)
drain_lock_activity-ends_example =
    drain_lock_activity-ends short_log full_short_log 1 (omega arith) first_is_record refl

drain_lock_activity-overruns_example :
    drain_lock_activity true (answers_of endless_log)
    ≡ drained (activities endless_log 0 32) 32 (err activity_log_overrun_error)
drain_lock_activity-overruns_example =
    drain_lock_activity-overruns endless_log (λ i. refl) (λ j h. refl)

-- A keycode result that is good and carries the PIN 1234 of slot 3.
abbrev pin_bytes : List ℕ
pin_bytes = 0x12 ∷ 0x34 ∷ 0xFF ∷ 0xFF ∷ 0xFF ∷ 0xFF ∷ 0xFF ∷ []

abbrev pin_answer : List ℕ
pin_answer = 0xBB ∷ 0x39 ∷ 0 ∷ 0 ∷ 3 ∷ 0 ∷ (pin_bytes ++ replicate 5 0)

abbrev good_link : Link
good_link = record { answers = λ n. ok pin_answer; connected = λ n. true }

set_keycode-run_all_example :
    (encoded : List ℕ) × (encode_keycode_pin (codes "1234") ≡ ok encoded)
    × (set_keycode good_link 3 (codes "1234") []
        ≡ run_all good_link (program_frames 3 encoded) [] [])
set_keycode-run_all_example =
    set_keycode-run_all good_link 3 (codes "1234") [] refl (omega arith) (omega arith) refl

abbrev first_answer : List ℕ
first_answer = 0x02 ∷ replicate 17 9

setup_session-Keyed_example : Keyed (replicate 8 7 ++ replicate 8 9) true (
    setup_session 1
      (replicate 16 1)
      (replicate 16 7)
      (ok first_answer)
      (ok (0x04 ∷ replicate 17 0)))
setup_session-Keyed_example =
    setup_session-Keyed 1 (replicate 16 1) (replicate 16 7) first_answer
      (ok (0x04 ∷ replicate 17 0)) (omega arith) (omega arith) (omega arith)
