-- ===== src/PfNode/LogLevel.antt =====
-- `useROSLogLevel` of mrpt_pf_localization_node.cpp.
use mrpt_navigation.Base.{ℕ, ◌≤◌, ◌<◌, ◌≡◌, arith, leb, if◌then◌else◌}

-- `mrpt::system::VerbosityLevel`
pub data VerbosityLevel : Type 0 where
  lvl_debug lvl_info lvl_warn lvl_error : VerbosityLevel

-- The level for the core, by the severity of ROS: DEBUG is 10, INFO 20, WARN 30, ERROR 40. Above that
-- the core keeps its own.
pub use_ros_log_level : ℕ → VerbosityLevel → VerbosityLevel
use_ros_log_level ros_log_level lvl =
    if leb ros_log_level 10
    then lvl_debug
    else if leb ros_log_level 20
    then lvl_info
    else if leb ros_log_level 30
    then lvl_warn
    else if leb ros_log_level 40
    then lvl_error
    else lvl

-- How little is logged.
abbrev quietness : VerbosityLevel → ℕ
quietness lvl_debug = 0
quietness lvl_info = 1
quietness lvl_warn = 2
quietness lvl_error = 3

-- Up to ERROR a higher severity never makes the core log more.
use_ros_log_level-le :
    (a b : ℕ) (old older : VerbosityLevel)
    → a ≤ b
    → b ≤ 40
    → quietness (use_ros_log_level a old) ≤ quietness (use_ros_log_level b older)
unfolding use_ros_log_level
use_ros_log_level-le a b old older h k = ground arith

-- With FATAL alone the core logs as it did before.
use_ros_log_level-fatal : (a : ℕ) (old : VerbosityLevel) → 40 < a → use_ros_log_level a old ≡ old
unfolding use_ros_log_level
use_ros_log_level-fatal a old h = ground arith
