-- ===== src/Rosbag.antt =====
-- mrpt_rawlog: the program rosbag2rawlog.
pub mod Library
pub mod Convert
pub mod Topics
pub mod Transcriber
pub mod Program
pub mod Synchronizer
