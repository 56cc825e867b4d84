-- ===== src/Network.antt =====
-- Connections and messages.
pub mod Admission
pub mod Message
pub mod Protocol
pub mod Connection
mod Examples
mod Talks
