-- ===== src/Rtcp.antt =====
-- src/transport/udp/rtcp.rs: parsing and building of RTP and RTCP packets. Each child is about one
-- part of that file.
pub mod Header
pub mod Nack
pub mod Compound
pub mod Rtx
pub mod Mbcp
pub mod Feedback
mod Tests
