-- ===== src/Tcp.antt =====
-- TCP of the crate `dumbo`: sequence numbers, segments and connections.
pub mod Seq
pub mod Segment
pub mod Connection
mod Examples
