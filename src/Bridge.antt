-- ===== src/Bridge.antt =====
-- mrpt_msgs_bridge: conversions between MRPT objects and ROS messages.
pub mod Graphs
pub mod Sensors
pub mod Markers
