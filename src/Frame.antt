-- ===== src/Frame.antt =====
-- src/transport/haier_frame.cpp: building a frame, writing it to a buffer, and parsing one.
pub mod Types
pub mod Kinds
pub mod Checksums
pub mod Polynomial
pub mod Build
pub mod Parse
pub mod Fill
pub mod Wire
pub mod Accounts
pub mod Roundtrip
pub mod Accepted
pub mod FillWire
pub mod Outcome
pub mod Tests
