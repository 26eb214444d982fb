-- ===== src/Transport.antt =====
-- src/transport/protocol_transport.cpp: frames out of, and into, the bytes of a stream.
pub mod State
pub mod Scan
pub mod Io
pub mod Invariant
pub mod Total
pub mod Unescape
pub mod Walk
pub mod Decode
pub mod Parts
pub mod Noise
pub mod Search
pub mod Taken
pub mod Line
pub mod Extend
pub mod Alike
pub mod Within
pub mod Hunted
pub mod Rounds
pub mod Arrival
pub mod Frames
pub mod InParts
pub mod Feed
pub mod Capacity
pub mod Cut
pub mod Poll
pub mod Deliver
pub mod Reset
pub mod Send
pub mod Tests
