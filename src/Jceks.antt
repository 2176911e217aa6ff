-- ===== src/Jceks.antt =====
-- The package jceks: Java key stores.
pub mod Types
pub mod Reader
pub mod Parse
pub mod Crypto
pub mod Pbe
pub mod Recover
pub mod Access
pub mod Takes
pub mod Encoding
pub mod Integrity
pub mod Dates
pub mod Strings
