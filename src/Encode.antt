-- ===== src/Encode.antt =====
-- crates/proof-of-sql/src/base/encode: variable-length integers.
pub mod Bits
pub mod BitLength
pub mod Varint
pub mod U256
pub mod ZigZag
pub mod Sized
pub mod Scalar
mod Tests
