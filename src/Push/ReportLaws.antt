-- ===== src/Push/ReportLaws.antt =====
-- How the retry decorator ends once the key has failed too often.
use yalexs_ble.Prelude.{◌≡◌, ◌≤◌, Bool, true, not, ◌&&◌, none, some, is_some, arith, if◌then◌else◌}
use yalexs_ble.Errors.{Error, auth_error, assertion_error, err}
use yalexs_ble.Push.State.{Watcher, Consumers, callback_result, get_current_state}
use yalexs_ble.Push.Update.{update_result, apply_result, update_value}
use yalexs_ble.Push.Run.{Progress, Run}
use yalexs_ble.Push.RetryRun.{Between, count_auth_failure, recover_auth, recover}

-- The consumers have not been told yet that the key failed.
abbrev pub untold : Watcher → Bool
untold w = elim (get_current_state w).auth [ none ↦ true | some a ↦ a.successful ]

-- A consumer is registered, and the lock's info or the data of an advertisement are not there.
abbrev pub cannot_be_called : Consumers → Progress → Bool
cannot_be_called c s = c.registered && not (is_some s.lock.lock_info && c.has_connection_info)

module _ {A : Type 0} (is_bleak_retry : Error → Bool) (lock_operation : Bool) where
  -- From the fifth failed authentication in a row on, an AuthError ends the call, whatever attempts are
  -- left, with nothing more asked of the lock; but what it raises is AssertionError if the consumers have not been told of a failed key
  -- before, and one is registered while the lock's info or the data of an advertisement are missing.
  pub recover-masks :
      (is_last : Bool) (b : Between) (rest : Run A) (s : Progress)
      → 4 ≤ s.lock.auth_failures
      → let (result, end) = recover is_bleak_retry lock_operation is_last auth_error b rest s in
        (result
          ≡ err (
              if untold s.lock.watcher && cannot_be_called b.consumers s
              then assertion_error
              else auth_error))
        × (end.asked ≡ s.asked)
  unfolding recover recover_auth count_auth_failure update_result apply_result update_value
      callback_result get_current_state
  recover-masks is_last b rest s often = (ground arith, ground arith)
