-- ===== src/Lock/OperationLaws.antt =====
-- The conditional commands of lock.py: what they send, and what their success means.
use yalexs_ble.Prelude.{
  ℕ, ◌≡◌, refl, ap, ◌∙◌, ◌+◌, ◌≤◌, Bool, true, false, some, List, [], ◌∷◌, ◌++◌, length, or_default,
  arith, if◌then◌else◌, length-append, get_elem?-get_or, leb, ◌==◌,
}
use yalexs_ble.Errors.{index_error, operation_failed_error, Result, ok, err}
use yalexs_ble.Util.BytesLaws.{index-get_or}
use yalexs_ble.Const.{LockStatus, lock_status_eq, value_to_lock_status}
use yalexs_ble.Session.Frame.{build_operation_command, build_command}
use yalexs_ble.Lock.Matchers.{poll_response_matcher, ack_matcher, operation_response_matcher, byte}
use yalexs_ble.Lock.Wire.{Link, lift, Exchange, continue}
use yalexs_ble.Lock.Operations.{
  Call, command, operation, lock_status, execute_command, execute_operation, check_result,
  force_lock, force_unlock, force_securemode, securemode, lock, unlock,
}

-- The three commands that act only if the lock does not report their status already.
pub data Conditional : Type 0 where
  to_securemode to_locked to_unlocked : Conditional

abbrev pub run : Conditional → Link → Exchange Call (Unit {0})
run to_securemode = securemode
run to_locked = lock
run to_unlocked = unlock

abbrev pub target : Conditional → LockStatus
target to_securemode = LockStatus.securemode
target to_locked = LockStatus.locked
target to_unlocked = LockStatus.unlocked

abbrev opcode : Conditional → ℕ
opcode to_unlocked = 0x0A
opcode _ = 0x0B

abbrev operation_byte : Conditional → ℕ
operation_byte to_securemode = 0x04
operation_byte _ = 0x00

abbrev pub frame : ℕ → ℕ → List ℕ
frame code b = 0xEE ∷ code ∷ 0 ∷ 0 ∷ b ∷ 0 ∷ 0 ∷ 0 ∷ 0 ∷ 0 ∷ 0 ∷ 0 ∷ 0 ∷ 0 ∷ 0 ∷ 0 ∷ 0x02 ∷ 0 ∷ []

-- The poll of the position.
abbrev pub status_poll : Call
status_poll = command (frame 0x02 0x02) (some (poll_response_matcher 0x02 (some 0x02)))

-- The command that moves the mechanism.
abbrev pub motion : Conditional → Call
motion c =
    operation (frame (opcode c) (operation_byte c)) (ack_matcher (opcode c) (operation_byte c))
      (operation_response_matcher (opcode c)) true

-- The position that an answer reports.
abbrev pub reported : List ℕ → LockStatus
reported response = or_default (value_to_lock_status (byte response 0x08)) LockStatus.unknown

-- What a motion's answer means: the byte at index 15 is 0 in a success, and what is raised names any
-- other.
abbrev pub motion_result : Result (List ℕ) → Result (Unit {0})
motion_result (err e) = err e
motion_result (ok response) =
    if leb (length response) 15
    then err index_error
    else if byte response 15 == 0
    then ok tt
    else err (operation_failed_error (byte response 15))

check_result-motion_result :
    (response : List ℕ) → check_result response ≡ motion_result (ok response)
unfolding check_result
check_result-motion_result response = rw (check_result, index-get_or response 15) (ground arith)

lock_status-reported :
    (link : Link) (sent : List Call) (response : List ℕ)
    → link.connected (length sent) ≡ true
    → link.answers (length sent) ≡ ok response
    → 9 ≤ length response
    → lock_status link sent ≡ (ok (reported response), sent ++ status_poll ∷ [])
unfolding lock_status execute_command build_operation_command build_command
lock_status-reported link sent response linked answered whole =
    rw (lock_status, linked, answered)
      (rw (get_elem?-get_or response 8 0 (omega arith), continue) refl)

abbrev force : Conditional → Link → Exchange Call (Unit {0})
force to_securemode = force_securemode
force to_locked = force_lock
force to_unlocked = force_unlock

continue-check_result :
    (answer : Result (List ℕ)) (sent : List Call)
    → continue (λ response sent'. (check_result response, sent')) answer sent
      ≡ (motion_result answer, sent)
continue-check_result (err e) sent = refl
continue-check_result (ok response) sent = ap (λ r. (r, sent)) (check_result-motion_result response)

force-motion :
    (c : Conditional) (link : Link) (sent : List Call)
    → link.connected (length sent) ≡ true
    → force c link sent ≡ (motion_result (link.answers (length sent)), sent ++ motion c ∷ [])
unfolding force_securemode force_lock force_unlock execute_operation build_operation_command
    build_command
force-motion to_securemode link sent linked =
    rw (force_securemode, linked) (continue-check_result (link.answers (length sent)) _)
force-motion to_locked link sent linked =
    rw (force_lock, linked) (continue-check_result (link.answers (length sent)) _)
force-motion to_unlocked link sent linked =
    rw (force_unlock, linked) (continue-check_result (link.answers (length sent)) _)

-- What a conditional command does on a link that reports a position and answers a motion so.
abbrev pub Conditionally : Conditional → Link → List Call → List ℕ → Type 0
Conditionally c link sent response = run c link sent ≡ (
    if lock_status_eq (reported response) (target c) then (ok tt, sent ++ status_poll ∷ []) else (
      motion_result (link.answers (length sent + 1)),
      (sent ++ status_poll ∷ []) ++ motion c ∷ [],
    ))

finish :
    (c : Conditional) (link : Link) (sent : List Call) (b : Bool)
    → link.connected (length sent + 1) ≡ true
    → (if b then lift (ok tt) else force c link) (sent ++ status_poll ∷ []) ≡ (
        if b then (ok tt, sent ++ status_poll ∷ []) else (
          motion_result (link.answers (length sent + 1)),
          (sent ++ status_poll ∷ []) ++ motion c ∷ [],
        ))
finish c link sent true linked = refl
finish c link sent false linked =
    let later = length-append sent (status_poll ∷ []) in
    force-motion c link (sent ++ status_poll ∷ []) (ap link.connected later ∙ linked)
    ∙ rw later refl

-- On a link that is connected for both exchanges and answers the poll with a whole frame, each of
-- `securemode`, `lock` and `unlock` sends the poll; it sends its one motion command exactly if the
-- frame reports another status than its own, and then ends as the motion's answer says: with
-- success for the result byte 0, else with the byte that was reported (IndexError if the answer is too
-- short for one).
pub conditional_command-Conditionally :
    (c : Conditional) (link : Link) (sent : List Call) (response : List ℕ)
    → link.connected (length sent) ≡ true
    → link.connected (length sent + 1) ≡ true
    → link.answers (length sent) ≡ ok response
    → 9 ≤ length response
    → Conditionally c link sent response
unfolding securemode lock unlock
conditional_command-Conditionally to_securemode link sent response first second answered whole =
    rw (securemode, lock_status-reported link sent response first answered whole)
      (finish to_securemode link sent (lock_status_eq (reported response) (target to_securemode))
        second)
conditional_command-Conditionally to_locked link sent response first second answered whole =
    rw (lock, lock_status-reported link sent response first answered whole)
      (finish to_locked link sent (lock_status_eq (reported response) (target to_locked)) second)
conditional_command-Conditionally to_unlocked link sent response first second answered whole =
    rw (unlock, lock_status-reported link sent response first answered whole)
      (finish to_unlocked link sent (lock_status_eq (reported response) (target to_unlocked))
        second)
