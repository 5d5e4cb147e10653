-- ===== src/Types.antt =====
-- The codecs of the package bacnet/types.
pub mod Bytes
pub mod Tag
pub mod Context
pub mod Repeat
pub mod Content
pub mod Property
pub mod Unsigned
pub mod Signed
pub mod ObjectId
pub mod Header
pub mod Scalars
pub mod GoValue
pub mod PropertyValue
