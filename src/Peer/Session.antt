-- ===== src/Peer/Session.antt =====
-- client/src/peer/session.cpp and client/include/sangtachi/peer/session.hpp: the session with one
-- peer. State holds the data, Sending what goes out, Lifecycle the timers and the state machine,
-- Admit the checks of a packet and Receive what it does; the other modules prove what they promise.
pub mod State
pub mod Sending
pub mod Lifecycle
pub mod Admit
pub mod Receive
pub mod Bounds
pub mod Ended
pub mod Handler
pub mod Reception
pub mod Quiet
pub mod Trail
pub mod Effects
pub mod Delivery
pub mod Notices
pub mod Events
pub mod Budget
pub mod Deadlines
mod Examples
