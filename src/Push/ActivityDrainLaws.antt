-- ===== src/Push/ActivityDrainLaws.antt =====
-- The activity drain: what is delivered, and how often a log that never ends is read.
use yalexs_ble.Prelude.{
  ℕ, ◌≡◌, refl, ◌+◌, ◌<◌, Bool, true, false, not, ◌&&◌, ◌||◌, List, [], length, leb, ◌==◌, arith,
  Bool-cases, inl, inr, if◌then◌else◌,
}
use yalexs_ble.Errors.{Error, Result, ok, err}
use yalexs_ble.Const.{Activity}
use yalexs_ble.Lock.Activity.{Drained}
use yalexs_ble.Push.ActivityDrain.{
  ActivityDrain, activity_drain_due, is_overrun, is_counted, add_strikes, note_failure, DrainEffect,
  drain_activity, end_drain,
}

-- The counts stay below their limits.
abbrev pub Counts : ActivityDrain → Type 0
Counts d = (d.failures < 3) × (d.overruns < 8)

note_failure-Counts :
    (now : ℕ) (e : Error) (records : ℕ) (d : ActivityDrain)
    → Counts d
    → Counts (note_failure now e records d).1
unfolding note_failure add_strikes
note_failure-Counts now e records d h = ground arith

abbrev pub ended_well : Result (Unit {0}) → Bool
ended_well (ok _) = true
ended_well (err e) = false

note_failure-pending :
    (now : ℕ) (e : Error) (records : ℕ) (d : ActivityDrain)
    → ((note_failure now e records d).1.pending ≡ d.pending)
      × ((note_failure now e records d).1.primed ≡ d.primed)
unfolding note_failure add_strikes
note_failure-pending now e records d = ground arith

-- What a drain's end leaves.
abbrev pub Ended : Bool → List Activity → Result (Unit {0}) → ActivityDrain → DrainEffect → Type 0
Ended pending' delivered outcome d effect =
    (effect.delivered ≡ delivered)
    × (effect.state.primed ≡ (d.primed || ended_well outcome))
    × (effect.state.pending ≡ (if ended_well outcome then pending' else true))
    × Counts effect.state

end_drain-Ended :
    (now : ℕ) (pending' : Bool) (delivered : List Activity) (records : ℕ)
    (outcome : Result (Unit {0}))
    → (d : ActivityDrain) → Counts d
    → Ended pending' delivered outcome d (end_drain now pending' delivered records outcome d)
unfolding end_drain
end_drain-Ended now pending' delivered records (ok _) d h = ground arith
end_drain-Ended now pending' delivered records (err e) d h =
    let owed : ActivityDrain = record d { pending = true } in
    let counts = note_failure-Counts now e records owed h in
    let (pending, primed) = note_failure-pending now e records owed in
    elim (Bool-cases (not (is_counted e))) [
      | inl raised ↦ rw (raised) (refl, ground arith, refl, h)
      | inr noted ↦ rw (noted) (refl, ground arith, pending, counts)
    ]

-- A drain delivers what it read only if the log was primed before; it primes the log and frees the
-- pending flag only if it reached the end of the log; and the counts of failures stay below 3 and of
-- overruns below 8.
pub drain_activity-Ended :
    (now : ℕ) (pending' : Bool) (drained : Drained) (d : ActivityDrain)
    → Counts d
    → Ended pending'
        (if d.primed then drained.yielded else [])
        drained.outcome
        d
        (drain_activity now pending' drained d)
unfolding drain_activity
drain_activity-Ended now pending' drained d h =
    end_drain-Ended now pending' (if d.primed then drained.yielded else []) (length drained.yielded)
      drained.outcome d h

-- The failures that leave the log alone: the third in a row, the eighth overrun, or an overrun that
-- read nothing.
abbrev pub exhausts : Error → ℕ → ActivityDrain → Bool
exhausts e records d =
    (is_overrun e && (leb 7 d.overruns || records == 0)) || (not (is_overrun e) && leb 2 d.failures)

exhausted_failure :
    (now : ℕ) (e : Error) (records : ℕ) (d : ActivityDrain)
    → exhausts e records d ≡ true
    → ((note_failure now e records d).1.earliest_time ≡ now + 3600000)
      × ((note_failure now e records d).0 ≡ false)
unfolding note_failure add_strikes
exhausted_failure now e records d h = ground arith

-- After the third failure in a row, the eighth overrun, or an overrun that read nothing, no drain is
-- due for an hour, whatever changes at the lock.
pub exhausted_drain-rests :
    (now later : ℕ) (pending' has_callbacks : Bool) (drained : Drained) (d : ActivityDrain)
    (e : Error)
    → drained.outcome ≡ err e
    → is_counted e ≡ true
    → exhausts e (length drained.yielded) d ≡ true
    → later < now + 3600000
    → activity_drain_due later has_callbacks (drain_activity now pending' drained d).state ≡ false
unfolding drain_activity end_drain activity_drain_due
exhausted_drain-rests now later pending' has_callbacks drained d e failed counted spent soon =
    let owed : ActivityDrain = record d { pending = true } in
    let (until, stopped) = exhausted_failure now e (length drained.yielded) owed spent in
    let early : leb (now + 3600000) later ≡ false = ground arith in
    rw (failed, counted, until, early) (ground arith)
