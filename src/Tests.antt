-- ===== src/Tests.antt =====
-- Concrete inputs: a platform, queues and messages, and the theorems applied to them.
pub mod Platforms
mod Bytes
pub mod Messages
mod Errors
mod Queues
mod Refs
pub mod Peers
mod Membership
mod Io
mod Loops
mod Lives
mod Races
pub mod Outgoing
mod Blobs
mod Dispatch
mod EndToEnd
mod Texts
mod FreeLists
mod Multicast
mod Bits
