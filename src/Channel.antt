-- ===== src/Channel.antt =====
-- pkg/util/channel/channel.go: the ring buffer `Deque`, and `UnboundedQueue` above it.
mod Tests
pub mod Deque
pub mod Queue
