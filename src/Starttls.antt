-- ===== src/Starttls.antt =====
-- The package starttls.
pub mod Address
pub mod Wire
pub mod Connect
pub mod Mysql
pub mod Psql
pub mod Drivers
