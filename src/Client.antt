-- ===== src/Client.antt =====
-- The client side of the package bacnet.
pub mod Transaction
