-- ===== src/Pdu.antt =====
-- The codecs of the package bacnet/pdu.
pub mod Reader
pub mod Npci
pub mod SubscribeCov
pub mod Property
pub mod ReadMultiple
pub mod TimeSync
pub mod WhoHas
