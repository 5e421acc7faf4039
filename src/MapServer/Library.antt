-- ===== src/MapServer/Library.antt =====
-- What map_server_node.cpp takes from MRPT, mp2p_icp and ROS: a parameter.
use Prim.Native.String.{String}
use mrpt_navigation.Base.{Option}

pub record Header (Stamp : Type 0) : Type 0 where
  pub stamp : Stamp
  pub frame_id : String

pub record Maps : Type 1 where
  pub Stamp : Type 0
  -- a layer, and what its dynamic casts answer
  pub Layer : Type 0
  pub Points : Type 0
  pub as_points : Layer → Option Points
  pub Voxels : Type 0
  pub as_voxels : Layer → Option Voxels
  pub occupied_voxels : Voxels → Points
  pub Grid : Type 0
  pub as_grid : Layer → Option Grid
  -- the clock at its next reading, when the cloud of these points is made
  pub next_stamp : Stamp → Points → Stamp
  -- the classes of points that can be sent, by their casts and conversions
  pub CloudMsg : Type 0
  pub xyzirt_msg : Points → Option (Header Stamp → CloudMsg)
  pub xyzi_msg : Points → Option (Header Stamp → CloudMsg)
  pub simple_msg : Points → Option (Header Stamp → CloudMsg)
  pub occupied_msg : Points → Header Stamp → CloudMsg
  pub GridMsg : Type 0
  pub grid_msg : Grid → Header Stamp → GridMsg
  pub MetaData : Type 0
  pub info : GridMsg → MetaData
