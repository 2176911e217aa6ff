-- ===== src/Tests.antt =====
-- Concrete runs, and the theorems at concrete inputs.
mod Jceks
mod KeyStores
mod Pkcs7
mod Starttls
mod Certs
mod Encoder
mod Verify
mod Cli
mod Dump
mod Display
