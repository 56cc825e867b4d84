-- ===== src/Geometry.antt =====
-- Positions and directions on the map.
pub mod Position
pub mod Direction
mod Examples
