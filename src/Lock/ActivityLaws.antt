-- ===== src/Lock/ActivityLaws.antt =====
-- The activity log: what a drain yields and how it ends.
use yalexs_ble.Prelude.{
  ℕ, zero, suc, ◌≡◌, refl, ◌+◌, ◌≤◌, ◌<◌, Bool, true, false, ◌||◌, Option, none, some, List, [],
  ◌∷◌, length, is_some, arith, subst,
}
use yalexs_ble.Errors.{activity_log_overrun_error, Result, ok, err}
use yalexs_ble.Const.{LockActivityType, keypad_unlock, door, no_activity, Activity}
use yalexs_ble.Lock.Matchers.{byte}
use yalexs_ble.Lock.ParseLaws.{index-byte}
use yalexs_ble.Lock.Activity.{
  is_type, parse_door_activity, parse_operation_activity, parse_pin_activity, parse_lock_activity,
  Drained, yields_first, drain_step, drain_loop, drain_lock_activity,
}

-- The record types that the parser knows.
abbrev pub is_known_type : ℕ → Bool
is_known_type n =
    is_type door n
    || (is_type LockActivityType.lock n
        || (is_type LockActivityType.pin n || is_type keypad_unlock n))

-- Whether a result carries an activity; `none` for an error.
abbrev pub carries : Result (Option Activity) → Option Bool
carries (ok activity) = some (is_some activity)
carries (err e) = none

carries-ok :
    (r : Result (Option Activity)) {b : Bool}
    → carries r ≡ some b
    → (activity : Option Activity) × (r ≡ ok activity) × (is_some activity ≡ b)
carries-ok (ok activity) h = (activity, refl, cc)
carries-ok (err e) h = cc

parse_lock_activity-carries :
    (response : List ℕ)
    → length response ≡ 18
    → carries (parse_lock_activity response) ≡ some (is_known_type (byte response 4))
unfolding parse_lock_activity parse_door_activity parse_operation_activity parse_pin_activity
parse_lock_activity-carries response h =
    let reads = index-byte response in
    rw
      (
        reads 4 (omega arith),
        reads 5 (omega arith),
        reads 6 (omega arith),
        reads 7 (omega arith),
        reads 9 (omega arith),
        reads 10 (omega arith),
        reads 12 (omega arith),
      )
      (ground arith)

-- Decoding a record of 18 bytes never raises, and yields an activity exactly for the four record
-- types that the parser knows.
pub parse_lock_activity-total :
    (response : List ℕ)
    → length response ≡ 18
    → (activity : Option Activity) × (parse_lock_activity response ≡ ok activity)
      × (is_some activity ≡ is_known_type (byte response 4))
parse_lock_activity-total response h =
    carries-ok (parse_lock_activity response) (parse_lock_activity-carries response h)

abbrev pub record_of : Result (Option Activity) → Option Activity
record_of (ok activity) = activity
record_of (err e) = none

-- A list with an optional activity before it.
abbrev pub with_first : Option Activity → List Activity → List Activity
with_first none rest = rest
with_first (some activity) rest = activity ∷ rest

-- The activities of `n` records from place `i` on, in the order of the reads.
abbrev pub activities : (ℕ → List ℕ) → ℕ → ℕ → List Activity
activities frames i zero = []
activities frames i (suc n) =
    with_first (record_of (parse_lock_activity (frames i))) (activities frames (suc i) n)

-- The answers of a lock whose frames all arrive.
abbrev pub answers_of : (ℕ → List ℕ) → ℕ → Result (List ℕ)
answers_of frames i = ok (frames i)

-- A drain with its end.
abbrev pub drained : List Activity → ℕ → Result (Unit {0}) → Drained
drained yielded reads outcome = record { yielded = yielded; reads = reads; outcome = outcome }

yields_first-drained :
    (activity : Option Activity) (rest : List Activity) (reads : ℕ) (outcome : Result (Unit {0}))
    → yields_first activity (drained rest reads outcome)
      ≡ drained (with_first activity rest) (suc reads) outcome
yields_first-drained none rest reads outcome = refl
yields_first-drained (some activity) rest reads outcome = refl

abbrev pub is_marker : List ℕ → Bool
is_marker frame = is_type no_activity (byte frame 4)

module _ (frames : ℕ → List ℕ) (full : (i : ℕ) → length (frames i) ≡ 18) where
  drain_step-marker :
      (i : ℕ) (rest : Drained)
      → is_marker (frames i) ≡ true
      → drain_step (ok (frames i)) rest ≡ drained [] 1 (ok tt)
  unfolding drain_step
  drain_step-marker i rest h =
      rw (drain_step, index-byte (frames i) 4 (rw (full i) (omega arith)), h) refl

  drain_step-record :
      (i : ℕ) (rest : Drained)
      → is_marker (frames i) ≡ false
      → drain_step (ok (frames i)) rest
        ≡ yields_first (record_of (parse_lock_activity (frames i))) rest
  unfolding drain_step
  drain_step-record i rest h =
      let (activity, parsed, known) = parse_lock_activity-total (frames i) (full i) in
      rw (drain_step, index-byte (frames i) 4 (rw (full i) (omega arith)), h, parsed) refl

  drain_loop-ends :
      (n turns i : ℕ)
      → n < turns
      → ((j : ℕ) → j < n → is_marker (frames (i + j)) ≡ false)
      → is_marker (frames (i + n)) ≡ true
      → drain_loop turns (answers_of frames) i ≡ drained (activities frames i n) (suc n) (ok tt)
  unfolding drain_loop
  drain_loop-ends n zero i fits before marker = absurd (omega arith)
  drain_loop-ends zero (suc turns) i fits before marker =
      drain_step-marker i (drain_loop turns (answers_of frames) (suc i))
        (subst (λ k. is_marker (frames k) ≡ true) (omega arith) marker)
  drain_loop-ends (suc n) (suc turns) i fits before marker =
      rw
        (
          drain_step-record i (drain_loop turns (answers_of frames) (suc i))
              (subst (λ k. is_marker (frames k) ≡ false) (omega arith) (before 0 (omega arith))),
          drain_loop-ends n turns (suc i) (omega arith)
              (λ j h.
                subst (λ k. is_marker (frames k) ≡ false) (omega arith)
                  (before (suc j) (omega arith)))
              (subst (λ k. is_marker (frames k) ≡ true) (omega arith) marker),
        )
        (yields_first-drained (record_of (parse_lock_activity (frames i)))
          (activities frames (suc i) n) (suc n) (ok tt))

  drain_loop-overruns :
      (turns i : ℕ)
      → ((j : ℕ) → j < turns → is_marker (frames (i + j)) ≡ false)
      → drain_loop turns (answers_of frames) i
        ≡ drained (activities frames i turns) turns (err activity_log_overrun_error)
  unfolding drain_loop
  drain_loop-overruns zero i before = refl
  drain_loop-overruns (suc turns) i before =
      rw
        (
          drain_step-record i (drain_loop turns (answers_of frames) (suc i))
              (subst (λ k. is_marker (frames k) ≡ false) (omega arith) (before 0 (omega arith))),
          drain_loop-overruns turns (suc i) (λ j h.
              subst (λ k. is_marker (frames k) ≡ false) (omega arith)
                (before (suc j) (omega arith))),
        )
        (yields_first-drained (record_of (parse_lock_activity (frames i)))
          (activities frames (suc i) turns) turns (err activity_log_overrun_error))

  -- For a connected lock whose reads all return full frames, a drain whose first end marker is among
  -- the first 32 answers stops there, ends well and yields the known records before it in their
  -- order.
  pub drain_lock_activity-ends :
      (n : ℕ)
      → n < 32
      → ((j : ℕ) → j < n → is_marker (frames j) ≡ false)
      → is_marker (frames n) ≡ true
      → drain_lock_activity true (answers_of frames)
        ≡ drained (activities frames 0 n) (suc n) (ok tt)
  unfolding drain_lock_activity
  drain_lock_activity-ends n fits before marker =
      drain_loop-ends n 32 0 fits
        (λ j h. subst (λ k. is_marker (frames k) ≡ false) (omega arith) (before j h))
        (subst (λ k. is_marker (frames k) ≡ true) (omega arith) marker)

  -- For a connected lock whose reads all return full frames, a drain with no end marker among the
  -- first 32 answers makes 32 reads, yields the known records among them and raises the overrun.
  pub drain_lock_activity-overruns :
      ((j : ℕ) → j < 32 → is_marker (frames j) ≡ false)
      → drain_lock_activity true (answers_of frames)
        ≡ drained (activities frames 0 32) 32 (err activity_log_overrun_error)
  unfolding drain_lock_activity
  drain_lock_activity-overruns before =
      drain_loop-overruns 32 0
        (λ j h. subst (λ k. is_marker (frames k) ≡ false) (omega arith) (before j h))

drain_step-reads :
    (answer : Result (List ℕ)) (rest : Drained) → (drain_step answer rest).reads ≤ suc rest.reads
unfolding drain_step
drain_step-reads answer rest = ground arith

-- However the lock answers, a drain makes at most as many reads as it has turns.
drain_loop-reads :
    (turns : ℕ) (answers : ℕ → Result (List ℕ)) (i : ℕ) → (drain_loop turns answers i).reads ≤ turns
unfolding drain_loop
drain_loop-reads zero answers i = omega arith
drain_loop-reads (suc turns) answers i = omega (
  arith,
  drain_step-reads (answers i) (drain_loop turns answers (suc i)),
  drain_loop-reads turns answers (suc i),
)
