-- ===== src/PfNode.antt =====
-- mrpt_pf_localization: the ROS node around `PFLocalizationCore`.
pub mod Library
pub mod Node
pub mod Twist
pub mod Parameters
pub mod Startup
pub mod Publish
pub mod Loop
pub mod LogLevel
pub mod Transforms
