-- ===== src/Session.antt =====
-- session.py: the plain session. `Frame` builds, seals and validates frames; `State` is the record
-- of a session with its futures; `Notify` handles one notification; `Write` is the command loop;
-- `Operation` is the staged wait of a mechanical operation; `Execute` has the handlers around both;
-- `Notifications` starts and stops the notifications.
-- The proofs stand in `FrameLaws`, `Waits` (what every notification keeps), `Admission` (what it
-- calls and resolves), `Disarming`, `WriteLaws`, `OperationLaws`, `ExecuteLaws` and
-- `NotificationLaws`.
pub mod Frame
pub mod FrameLaws
pub mod State
pub mod Notify
pub mod Waits
pub mod Admission
pub mod Disarming
pub mod Write
pub mod WriteLaws
pub mod Operation
pub mod OperationLaws
pub mod Execute
pub mod ExecuteLaws
pub mod Notifications
pub mod NotificationLaws
