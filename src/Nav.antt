-- ===== src/Nav.antt =====
-- mrpt_reactivenav2d: the node around MRPT's reactive navigation engine.
pub mod Library
pub mod Node
pub mod Markers
pub mod Commands
pub mod Actions
pub mod Startup
pub mod Transforms
