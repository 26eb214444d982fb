-- ===== src/Hon.antt =====
-- tools/utils/hon_server.cpp and tools/hon_simulator: an appliance that speaks the hOn protocol.
pub mod Packet
pub mod Server
pub mod Parameters
pub mod Handlers
pub mod Members
pub mod Answers
pub mod Requests
pub mod Simulator
pub mod Serve
pub mod Line
pub mod Group
pub mod Layout
pub mod Set
pub mod Alarms
pub mod Readings
pub mod Reports
pub mod Keeps
pub mod Kept
pub mod Steps
pub mod Tests
