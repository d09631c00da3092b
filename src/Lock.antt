-- ===== src/Lock.antt =====
-- lock.py. `Battery` turns a voltage into a percentage, `AutoLock` reads and writes the auto lock
-- value, `Matchers` tells which frame answers a command, `Parse` decodes a frame into states,
-- `Activity` decodes and drains the activity log, `Wire` is what a method sends and hears,
-- `KeycodeFrames` and `Keycode` are the keypad commands, `Handshake` is the opening exchange,
-- `Operations` polls the lock and moves it, `Info` probes the device, `Connection` opens and closes
-- the link. The modules whose names end in `Laws` hold the proofs.
pub mod Battery
pub mod BatteryLaws
pub mod Matchers
pub mod MatcherLaws
pub mod AutoLock
pub mod AutoLockLaws
pub mod Parse
pub mod ParseLaws
pub mod Activity
pub mod ActivityLaws
pub mod Handshake
pub mod HandshakeLaws
pub mod Wire
pub mod KeycodeFrames
pub mod Keycode
pub mod KeycodeLaws
pub mod Operations
pub mod OperationLaws
pub mod Info
pub mod InfoLaws
pub mod Connection
pub mod ConnectionLaws
