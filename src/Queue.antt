-- ===== src/Queue.antt =====
-- Virtio queues, src/devices/src/virtio/queue.rs.
pub mod Memory
pub mod Descriptor
pub mod Rings
pub mod Used
pub mod Kick
pub mod Notify
pub mod Chain
pub mod Drain
pub mod Flat
mod Examples
