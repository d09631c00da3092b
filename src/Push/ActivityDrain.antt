-- ===== src/Push/ActivityDrain.antt =====
-- push.py: when the activity log is drained, and what a drain's end does to the next one. What the
-- drain yields and how it ends is an argument, `Drained` of lock.py. A delivered record is given to
-- every consumer; a consumer's exception is contained there and left out.
use yalexs_ble.Prelude.{
  ℕ, ◌+◌, Bool, true, false, not, ◌&&◌, ◌||◌, Option, none, some, List, [], length, ltb, leb, ◌==◌,
  if◌then◌else◌,
}
use yalexs_ble.Errors.{
  Error, timeout_error, activity_log_overrun_error, is_bleak_error, is_response_error, Result, ok,
  err,
}
use yalexs_ble.Const.{Activity}
use yalexs_ble.Lock.Activity.{Drained}

-- `ACTIVITY_DRAIN_FAILURE_THRESHOLD`
abbrev pub activity_drain_failure_threshold : ℕ
activity_drain_failure_threshold = 3

-- `ACTIVITY_DRAIN_FAILURE_BACKOFF`
abbrev pub activity_drain_failure_backoff : ℕ
activity_drain_failure_backoff = 3600000

-- `ACTIVITY_PRIME_DELAY`
abbrev pub activity_prime_delay : ℕ
activity_prime_delay = 10000

-- `ACTIVITY_DRAIN_MAX_OVERRUNS`
abbrev pub activity_drain_max_overruns : ℕ
activity_drain_max_overruns = 8

pub record ActivityDrain : Type 0 where
  pub primed : Bool
  pub pending : Bool
  pub failures : ℕ
  pub overruns : ℕ
  pub earliest_time : ℕ

-- `_activity_drain_due`
unfoldable pub activity_drain_due : ℕ → Bool → ActivityDrain → Bool
activity_drain_due now has_callbacks d = has_callbacks && (d.pending && leb d.earliest_time now)

abbrev pub is_overrun : Error → Bool
is_overrun activity_log_overrun_error = true
is_overrun _ = false

abbrev pub is_timeout : Error → Bool
is_timeout timeout_error = true
is_timeout _ = false

-- The errors of `_drain_activity` that are counted; any other is raised.
abbrev pub is_counted : Error → Bool
is_counted e = is_bleak_error e || (is_timeout e || is_response_error e)

-- The end of `_note_activity_drain_failure`, with the strikes of the failure.
unfoldable pub add_strikes : ℕ → ℕ → ActivityDrain → ActivityDrain
add_strikes now strikes d =
    if ltb (d.failures + strikes) activity_drain_failure_threshold
    then record d { failures = d.failures + strikes }
    else record d { failures = 0; earliest_time = now + activity_drain_failure_backoff }

-- `_note_activity_drain_failure`: whether it schedules the continuation of a deep log.
unfoldable pub note_failure : ℕ → Error → ℕ → ActivityDrain → Bool × ActivityDrain
unfolding add_strikes
note_failure now e records d =
    if is_overrun e
    then if not (records == 0) && ltb (d.overruns + 1) activity_drain_max_overruns
      then (true, record d { overruns = d.overruns + 1 })
      else (false, add_strikes now activity_drain_failure_threshold (record d { overruns = 0 }))
    else (false, add_strikes now 1 d)

-- A drain's effect: what is delivered, whether an update is scheduled, what is raised.
pub record DrainEffect : Type 0 where
  pub delivered : List Activity
  pub continues : Bool
  pub raised : Option Error
  pub state : ActivityDrain

-- The end of `_drain_activity`, on how the drain ended and how many records it read. `pending'` is
-- the flag then, as a change of the display during the drain sets it again.
unfoldable pub end_drain :
    ℕ → Bool → List Activity → ℕ → Result (Unit {0}) → ActivityDrain → DrainEffect
unfolding note_failure
end_drain now pending' delivered records (ok _) d = record {
  delivered = delivered;
  continues = false;
  raised = none;
  state = record d { primed = true; pending = pending'; failures = 0; overruns = 0 };
}
end_drain now pending' delivered records (err e) d =
    let owed : ActivityDrain = record d { pending = true } in
    if not (is_counted e)
    then record { delivered = delivered; continues = false; raised = some e; state = owed }
    else let (continues, noted) = note_failure now e records owed in
      record { delivered = delivered; continues = continues; raised = none; state = noted }

-- `_drain_activity`: a record is delivered only once the log is primed.
unfoldable pub drain_activity : ℕ → Bool → Drained → ActivityDrain → DrainEffect
unfolding end_drain
drain_activity now pending' drained d =
    end_drain now pending' (if d.primed then drained.yielded else []) (length drained.yielded)
      drained.outcome d
