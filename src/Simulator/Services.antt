-- ===== src/Simulator/Services.antt =====
-- The codecs of simulator/services.go.
pub mod Convert
pub mod ReadProperty
pub mod WriteProperty
pub mod ReadMultiple
pub mod WriteMultiple
pub mod Notification
pub mod Termination
