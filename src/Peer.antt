-- ===== src/Peer.antt =====
-- client/src/peer and client/include/sangtachi/peer: one session per peer.
pub mod Candidates
pub mod Epoch
pub mod Session
