-- ===== src/Cg.antt =====
-- crates/grafted-frameworks/src/cg: drawing.
pub mod Geometry
pub mod Color
pub mod Context
pub mod Tests
