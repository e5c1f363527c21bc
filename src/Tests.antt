-- ===== src/Tests.antt =====
-- Runs at concrete inputs, one for each theorem that has conditions.
mod Scene
mod Rounds
mod Queries
mod Plugin
mod Config
mod Answers
mod Entry
mod Transport
mod Protocol
mod Https
pub mod Builtin
