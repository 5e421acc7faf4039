-- ===== src/RawlogPlay/Library.antt =====
-- What rawlog_play_node.cpp takes from MRPT and ROS: a parameter. The beacons and the landmarks are
-- those of mrpt_msgs_bridge.
use Prim.Native.String.{String}
use mrpt_navigation.Base.{ℕ, List}
use mrpt_navigation.Bridge.Sensors.{Bridge, BeaconRanges, BearingRange}

pub record LaserMsg (Stamp : Type 0) (Content : Type 0) : Type 0 where
  pub stamp : Stamp
  pub frame_id : String
  pub content : Content

module _ (bridge : Bridge) where
  open bridge use {Pose, TimeMsg}

  pub record Rosbridge : Type 1 where
    -- `toROS` of a scan, over the message that is there
    pub Scan : Type 0
    pub scan_label : Scan → String
    pub scan_pose : Scan → Pose
    pub ScanContent : Type 0
    pub no_content : ScanContent
    pub scan_content : Scan → ScanContent
    pub laser_to_ros : Scan → LaserMsg TimeMsg ScanContent → LaserMsg TimeMsg ScanContent
    pub Unsupported : Type 0
    pub Transform : Type 0
    pub to_transform : Pose → Transform
    pub inverse : Transform → Transform
    -- the estimate of the pose, `-=` on it, and its message
    pub Pdf : Type 0
    pub no_pdf : Pdf
    pub minus : Pdf → Pdf → Pdf
    pub mean : Pdf → Pose
    pub PdfMsg : Type 0
    pub no_pdf_msg : PdfMsg
    pub to_pdf_msg : Pdf → PdfMsg
    -- the increment that `getFirstMovementEstimation` leaves
    pub Action : Type 0
    pub movement : Action → Pdf
    -- `ros::Time::now()` at its n-th call, and 0.05 s later
    pub no_time : TimeMsg
    pub now : ℕ → TimeMsg
    pub soon : TimeMsg → TimeMsg

  module _ (ros : Rosbridge) where
    open ros use {Scan, Action, Unsupported}

    pub data Observation : Type 0 where
      scan : Scan → Observation
      beacons : BeaconRanges bridge → Observation
      landmarks : BearingRange bridge → Observation
      unsupported : Unsupported → Observation

    -- What one read of the rawlog gives: a pair, or an observation alone with two null pointers.
    pub data Entry : Type 0 where
      pair : Action → List Observation → Entry
      alone : Observation → Entry
