-- ===== src/MapServer.antt =====
-- mrpt_map_server: the map server node.
pub mod Library
pub mod Publish
pub mod Services
pub mod Start
