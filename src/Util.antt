-- ===== src/Util.antt =====
-- ApolloUtil.c: hexadecimal text, field separation, number parsing and file names.
pub mod Hex
pub mod Fields
pub mod Scan
pub mod Paths
mod Examples
