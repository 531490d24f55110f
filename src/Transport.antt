-- ===== src/Transport.antt =====
-- pkg/rtc/webrtc_transport.go: the transport of a peer makes producers and consumers. What pion answers
-- is an argument of each operation.
pub mod Types
pub mod Produce
pub mod Consume
pub mod Close
pub mod Closed
pub mod Entered
pub mod Clash
pub mod Served
pub mod Orphans
mod Tests
