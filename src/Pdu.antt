-- ===== src/Pdu.antt =====
-- The packets of the network stack, src/dumbo/src/pdu.
pub mod Bytes
pub mod Ethernet
pub mod Arp
pub mod Ipv4
pub mod Udp
mod Examples
