-- ===== src/Simulator.antt =====
-- The package simulator: a network of BACnet devices in memory.
pub mod Errors
pub mod Property
pub mod Object
pub mod Device
pub mod WriteMultiple
pub mod Subscriptions
pub mod SubscribeRequest
pub mod Services
pub mod Response
pub mod Changes
pub mod Application
pub mod Network
pub mod WhoIs
