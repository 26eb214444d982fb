-- ===== src/SmartAir2.antt =====
-- tools/utils/smartair2_server.cpp and tools/smartair2_simulator: an appliance that speaks the
-- SmartAir2 protocol.
pub mod Packet
pub mod Server
pub mod Status
pub mod Answers
pub mod Tests
