-- ===== src/Vsock.antt =====
-- The vsock device, src/devices/src/virtio/vsock: the buffers and queues between guest and host.
pub mod RxQ
pub mod TxBuf
mod Examples
mod Transfers
pub mod KillQ
pub mod Packet
pub mod PendingRx
pub mod Connection
pub mod Muxer
