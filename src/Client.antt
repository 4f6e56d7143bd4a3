-- ===== src/Client.antt =====
-- The client: mip-client-rust/src/client/.
pub mod Types
pub mod Events
pub mod Message
pub mod Dispatch
pub mod Stream
pub mod Sending
pub mod State
pub mod Api
pub mod Tasks
pub mod Connection
pub mod System
