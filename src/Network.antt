-- ===== src/Network.antt =====
-- client/src/network and client/include/sangtachi/network.
pub mod Decimal
pub mod Endpoint
pub mod Stun
pub mod StunClient
