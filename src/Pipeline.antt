-- ===== src/Pipeline.antt =====
-- mrpt_pointcloud_pipeline: the node that builds local maps from recent observations.
pub mod Local
pub mod Window
pub mod Start
