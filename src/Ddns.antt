-- ===== src/Ddns.antt =====
-- The daemon (src/ddns.c): when an alias is due, what is sent for it, and the main loop.
pub mod State
pub mod Send
pub mod Update
pub mod Schedule
pub mod Address
pub mod Query
pub mod Backend
pub mod Command
pub mod Setup
pub mod Loop
pub mod Lost
