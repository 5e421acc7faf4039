-- ===== src/RawlogPlay.antt =====
-- mrpt_rawlog: the node that plays a rawlog.
pub mod Library
pub mod Observations
pub mod Node
pub mod Player
