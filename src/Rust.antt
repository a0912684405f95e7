-- ===== src/Rust.antt =====
-- What the source uses of Rust's standard library: text, number parsing and IP addresses.
pub mod Text
pub mod Decimal
pub mod Ip
pub mod Splits
pub mod Utf8
pub mod Bytes
