-- ===== src/Planner.antt =====
-- mrpt_tps_astar_planner: the planner node.
pub mod Library
pub mod Node
pub mod Plan
pub mod Services
pub mod Start
pub mod Transforms
