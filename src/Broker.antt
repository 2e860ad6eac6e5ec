-- ===== src/Broker.antt =====
pub mod Role
pub mod Kind
pub mod Protocol
pub mod Sessions
pub mod Routing
pub mod Reader
pub mod Effects
pub mod World
pub mod Sends
mod Examples
