-- ===== src/Util.antt =====
-- util.py. `Bytes` has the buffer and integer helpers, `Checksum` the two checksums, `Pin` the
-- keypad codes, `Names` the local names, `ErrorTests` the tests on errors of bleak. The proofs stand
-- in `BytesLaws`, `CopyLaws`, `ChecksumLaws`, `PinHex`, `PinLaws` and `NameLaws`.
pub mod Bytes
pub mod BytesLaws
pub mod CopyLaws
pub mod Checksum
pub mod ChecksumLaws
pub mod Pin
pub mod PinHex
pub mod PinLaws
pub mod Names
pub mod NameLaws
pub mod ErrorTests
