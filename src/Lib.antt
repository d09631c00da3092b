-- ===== src/Lib.antt =====
-- Verification of yalexs_ble, a Bluetooth library for Yale and August locks (src/yalexs_ble).
--
-- The parts. A `PushLock` (push.py) watches one lock: it decides when to connect and poll, runs
-- commands with retries, and turns what the lock reports into a displayed state. It drives a
-- `Lock` (lock.py), which builds commands and decodes frames, over two sessions: `Session`
-- (session.py) encrypts a command, waits for the frame that answers it and hands every valid frame
-- to the lock's state callback; `SecureSession` (secure_session.py) is the same with other frames.
-- const.py holds the enumerations and data classes, util.py the codecs.
--
-- The files.
--   Prelude: native numbers, lists measured by them, texts as lists of code points.
--   Const: const.py. `Names` the enumerations, `Records` the data classes, `Info` LockInfo.
--   Errors: the exceptions of session.py, lock.py and bleak as values, and the result type.
--   Util: util.py. `Bytes`, `Checksum`, `Pin`, `Names`, `ErrorTests`.
--   Session: session.py. `Frame` the frames, `State` the fields, `Notify` is _notify, `Write` is
--     _locked_write, `Operation` is _locked_write_operation, `Execute` the handlers of execute and
--     execute_operation, `Notifications` is start_notify and stop_notify.
--   SecureSession: the frames of secure_session.py.
--   Lock: lock.py. `Battery`, `Matchers`, `AutoLock`, `Parse` (_parse_state), `Activity` (the log),
--     `Handshake` (_setup_session), `Wire`, `KeycodeFrames` and `Keycode` (the keypad), `Operations`
--     (the polls and the commands), `Info` (lock_info), `Connection` (connect and disconnect).
--   Push: push.py. `Display` (_Display), `Scheduler` (the deferred update), `Backoff`,
--     `AuthHistory`, `Retry` (retry_bluetooth_connection_error), `AutoLockRead`,
--     `ActivityDrain`, `Advertisement`, `State`, `Jam`, `Update` (_update_any_state), `Operation`
--     (_run_lock_operation to _finalize_operation). Over them, the whole watcher: `Identity` (which
--     lock it is for), `PushLock` (its state and timers), `Events` (what reaches it while one of its
--     coroutines waits), `UpdateAdvertisement`, `Lifecycle` (start to _execute_deferred_update),
--     `Connect` (_ensure_connected), `Run` (coroutines), `Reads` and `Cycle` (_locked_update and
--     _keep_link_alive), `Attempts` (_execute_lock_operation, _set_auto_lock and _run_on_lock),
--     `RetryRun` (the retry decorator on the watcher's state), `AutoLockWrite`, `Commands` (what the
--     consumers call, with the retries).
--   Tests: runs on concrete values.
-- A module whose name ends in `Laws`, `AskOrder` of Push, and `Waits`, `Admission` and `Disarming` of
-- Session, hold proofs.
--
-- How code is modelled. A method is a function from the object's record to its next record and its
-- result. A coroutine is a function of what happens while it is suspended: the notifications handled
-- meanwhile, the answers of the lock, the exceptions thrown into it. A future is its place in the
-- list of futures made so far. A coroutine of the watcher runs in `Run`, on a state with the time
-- and with what was asked of the lock; each wait brings the events that reach the watcher meanwhile,
-- the time of its end and how it ends, all taken from a `World`; any interleaving of them is one.
-- Bytes are numbers; the frame functions build and keep bytes below 256. Times of push.py and
-- session.py are whole milliseconds of one clock; NEVER_TIME, a day before the import, is its zero,
-- and a difference of times that could be negative is written as a sum on the other side. Voltages
-- are the whole millivolts on the wire, and the battery table is in hundredths of a millivolt, so no
-- division is rounded.
--
-- Bounds. The command loop of _locked_write makes three attempts, the retry decorator `attempts`,
-- the drain of the activity log 32 reads: these are structural. The binary search runs on the length
-- of its list as fuel, which `bisect_left-count_below` shows to be enough.
--
-- Parameters. The cipher of the cryptography package is `update`, of which the theorems assume at
-- most that it returns as many bytes as it is given. The LRU map is `Lru`, of which one law is
-- assumed: a key just written reads back. BLEAK_RETRY_EXCEPTIONS is a test on errors, and so are the
-- tuples built on it. The radio is what an attempt, a connect, a probe or a wait ends with.
--
-- Not modelled: the GATT calls themselves, which are the radio stack's; the unsubscribing of consumers
-- and their exceptions, which are contained where they are called; logging; the properties that only
-- return a field; the texts of exceptions.
pub mod Prelude
pub mod Const
pub mod Errors
pub mod Util
pub mod Session
pub mod SecureSession
pub mod Lock
pub mod Push
pub mod Tests
