-- ===== src/Block.antt =====
-- The virtio block device, src/devices/src/virtio/block.
pub mod Request
pub mod Finish
mod Examples
