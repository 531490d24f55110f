-- ===== src/Buffer.antt =====
-- pkg/buffer/buffer.go: the buffer that receives the packets of a producer's stream.
pub mod Types
pub mod Steps
pub mod Calc
pub mod Methods
pub mod Reads
pub mod Unbound
pub mod Throttle
pub mod Kept
pub mod Handed
mod Tests
