-- ===== src/Push.antt =====
-- push.py: the watcher of one lock. `Display` projects a reported status onto the two lock channels,
-- `Scheduler` keeps the one deferred update, `Backoff` paces reconnects, `AuthHistory` and `Retry`
-- run the attempts of an operation, `AutoLockRead` and `ActivityDrain` pace two optional reads,
-- `Advertisement` reads an advertisement. `State`, `Jam`, `Update` and `Operation` are the watcher's
-- state and what changes its display. `PushLock` is the whole watcher with its timers, `Events` what
-- reaches it, `Lifecycle` its start, its stop and the task of an update, `Run` a coroutine of its own,
-- `Reads` and `Cycle` one update, `Attempts` one attempt of a command, `RetryRun` the attempts on the
-- watcher's state, `Commands` what the consumers call. The modules whose names end in `Laws`, and
-- `AskOrder`, hold the proofs.
-- All times are whole milliseconds of one clock.
pub mod Display
pub mod DisplayLaws
pub mod Scheduler
pub mod SchedulerLaws
pub mod Backoff
pub mod BackoffLaws
pub mod AuthHistory
pub mod AuthHistoryLaws
pub mod Retry
pub mod RetryLaws
pub mod AutoLockRead
pub mod AutoLockReadLaws
pub mod State
pub mod Jam
pub mod Update
pub mod UpdateLaws
pub mod JamLaws
pub mod Operation
pub mod OperationLaws
pub mod PollLaws
pub mod AnswerLaws
pub mod ActivityDrain
pub mod ActivityDrainLaws
pub mod Advertisement
pub mod AdvertisementLaws
pub mod Identity
pub mod PushLock
pub mod Events
pub mod TimerLaws
pub mod Connect
pub mod Lifecycle
pub mod LifecycleLaws
pub mod StopLaws
pub mod Run
pub mod Reads
pub mod Cycle
pub mod ModeLaws
pub mod AskOrder
pub mod CycleLaws
pub mod RetryRun
pub mod ReportLaws
pub mod RetryRunLaws
pub mod Attempts
pub mod Commands
pub mod CommandLaws
pub mod PrecedenceLaws
pub mod JamStopLaws
pub mod AttemptLaws
pub mod AutoLockWrite
pub mod AutoLockWriteLaws
pub mod UpdateAdvertisement
pub mod UpdateAdvertisementLaws
pub mod KeepLaws
pub mod RequestLaws
pub mod InfoLaws
pub mod ReturnLaws
