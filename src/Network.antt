-- ===== src/Network.antt =====
-- include/salticidae/network.h.
pub mod Reader
pub mod Incoming
pub mod Outgoing
pub mod Clients
pub mod Dispatch
