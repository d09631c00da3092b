-- ===== src/Const.antt =====
-- const.py: the frame length, the enumerations with their wire values, and the state records.
-- `Names` holds the enumerations, `Records` the dataclasses, `Info` the model tests of `LockInfo`,
-- `Values` the proofs about the value tables.
mod Names
mod Records
mod Info
pub mod Values
pub mod Models
unfoldable pub use Names.*
unfoldable pub use Records.*
unfoldable pub use Info.*
