-- ===== src/Protocol.antt =====
-- src/protocol/haier_protocol.cpp: requests, answers and their handlers over the transport.
pub mod State
pub mod Calls
pub mod Loop
pub mod Write
pub mod Reads
pub mod Replies
pub mod Maps
pub mod Called
pub mod Enqueued
pub mod Sound
pub mod Turn
pub mod Attempts
pub mod Silent
pub mod Turns
pub mod GivingUp
pub mod Answered
pub mod Ends
pub mod Exchange
pub mod Tests
