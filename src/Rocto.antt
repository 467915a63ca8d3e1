-- ===== src/Rocto.antt =====
-- The protocol layer of ROcto, src/rocto: one child for each group of its files.
pub mod Bytes
pub mod Message
pub mod Read
pub mod Bind
pub mod Startup
pub mod Make
pub mod Rows
pub mod Socket
pub mod Session
pub mod Password
pub mod Parameters
