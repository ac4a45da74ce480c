-- ===== src/Tunnel.antt =====
-- client/src/tunnel and client/include/sangtachi/tunnel: the tunnel plane.
pub mod Wire
pub mod Packet
pub mod Inner
pub mod Roster
pub mod Router
pub mod Publisher
pub mod Replay
pub mod Table
pub mod DataSender
