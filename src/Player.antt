-- ===== src/Player.antt =====
-- src/player.h, src/player.cpp: the progress of a player.
pub mod Experience
pub mod Training
mod Examples
