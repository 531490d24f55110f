-- ===== src/RtpStats.antt =====
-- pkg/buffer/rtpstats.go: the statistics of one RTP stream.
-- `Types` has the state, `Ring` the ring of packet sizes, `Update` the handler of a packet,
-- `Counters` the handlers of feedback, `Snapshots` the intervals. The others prove.
pub mod Types
pub mod Ring
pub mod Jitter
pub mod Update
pub mod Counters
pub mod Snapshots
pub mod Reports
pub mod Reported
pub mod Tally
pub mod Count
pub mod WrapStart
pub mod Stopped
pub mod Interval
pub mod Quiet
pub mod MaxJitter
pub mod Reachable
mod Tests
