-- ===== src/Pdu/ReadMultiple.antt =====
-- bacnet/pdu/read_property_multiple.go.
pub mod Request
pub mod Ack
pub mod Values
pub mod Termination
