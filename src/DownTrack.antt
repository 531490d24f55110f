-- ===== src/DownTrack.antt =====
-- pkg/rtc/downtrack.go: the track that writes a producer's packets to a consumer's peer.
pub mod Types
pub mod Forward
pub mod Retransmit
pub mod Feedback
pub mod Lifecycle
pub mod Numbers
pub mod Sends
pub mod Events
pub mod Anchor
pub mod Resync
pub mod Resend
pub mod Requests
mod Tests
