-- ===== src/Pf/Library.antt =====
-- What mrpt_pf_localization_core.cpp takes from MRPT, mp2p_icp, mola_relocalization and the YAML
-- reader. All of it is a parameter: types, and operations with no law but those named in a theorem.
use Prim.Native.String.{String}
use mrpt_navigation.Base.{ℕ, Bool, Option, List}
use mrpt_navigation.Base.StdMap.{Key}

-- `double`, with `ratio n d` the literal nearest to n / d.
pub record Double : Type 1 where
  pub Real : Type 0
  pub ratio : ℕ → ℕ → Real
  pub of_size : ℕ → Real
  pub negate : Real → Real
  pub plus : Real → Real → Real
  pub minus : Real → Real → Real
  pub times : Real → Real → Real
  pub over : Real → Real → Real
  pub square_root : Real → Real
  pub larger : Real → Real → Real
  pub smaller : Real → Real → Real
  pub pi : Real
  -- `static_cast<size_t>` and `mrpt::round`.
  pub to_size : Real → ℕ
  pub round : Real → ℕ

-- `mrpt::containers::yaml`: `none` stands for the exception of a missing key or a failed conversion.
pub record Yaml (Real : Type 0) : Type 1 where
  pub Node : Type 0
  pub has : Node → String → Bool
  pub at : Node → String → Option Node
  pub is_map : Node → Bool
  pub is_scalar : Node → Bool
  pub as_bool : Node → Option Bool
  pub as_size : Node → Option ℕ
  pub as_real : Node → Option Real
  pub as_text : Node → Option String

pub record Mrpt : Type 1 where
  pub double : Double
  pub open double use *
  pub yaml : Yaml Real
  pub open yaml use *
  pub deg2rad : Real → Real
  -- poses
  pub Pose2 : Type 0
  pub pose2 : Real → Real → Real → Pose2
  pub x2 : Pose2 → Real
  pub y2 : Pose2 → Real
  pub phi : Pose2 → Real
  pub normalize_phi : Pose2 → Pose2
  pub identity2 : Pose2
  -- `a - b` of two SE(2) poses
  pub relative2 : Pose2 → Pose2 → Pose2
  pub Pose3 : Type 0
  pub pose3 : Real → Real → Real → Real → Real → Real → Pose3
  pub x : Pose3 → Real
  pub y : Pose3 → Real
  pub z : Pose3 → Real
  pub yaw : Pose3 → Real
  pub pitch : Pose3 → Real
  pub roll : Pose3 → Real
  pub identity3 : Pose3
  pub flatten : Pose3 → Pose2
  pub lift : Pose2 → Pose3
  pub norm3 : Pose3 → Real
  -- 6x6 covariances, of which the program reads and writes the diagonal
  pub Cov : Type 0
  pub diagonal : Real → Real → Real → Real → Real → Real → Cov
  pub cov_at : Cov → ℕ → Real
  -- observations
  pub Label : Type 0
  pub label_key : Key Label
  pub ClassName : Type 0
  pub class_key : Key ClassName
  pub Stamp : Type 0
  pub earlier : Stamp → Stamp → Bool
  pub Obs : Type 0
  pub sensor_label : Obs → Label
  pub class_name : Obs → ClassName
  pub timestamp : Obs → Stamp
  -- the pose of an odometry observation, `none` for any other class
  pub as_odometry : Obs → Option Pose2
  -- a GPS observation that `has_GGA_datum()`
  pub has_gga : Obs → Bool
  pub Coords : Type 0
  -- `getMsgByClassPtr<Message_NMEA_GGA>()` with its coordinates
  pub gga_coords : Obs → Option Coords
  pub Geo : Type 0
  -- the position in the map frame: WGS84 to ENU, then by the inverse of `T_enu_to_map`
  pub to_map : Geo → Coords → Pose3
  pub gps_cov : Obs → Option Cov
  -- the 3x3 block of a GPS covariance, zeros elsewhere, and the given yaw variance
  pub gps_block : Cov → Real → Cov
  -- maps
  pub Layer : Type 0
  pub is_points : Layer → Bool
  pub is_grid : Layer → Bool
  pub PointLikelihood : Type 0
  pub GridLikelihood : Type 0
  pub set_point_likelihood : PointLikelihood → Layer → Layer
  pub set_grid_likelihood : GridLikelihood → Layer → Layer
  pub likelihood_points_from : Node → PointLikelihood
  pub likelihood_grid_from : Node → GridLikelihood
  pub can_compute_likelihood : Layer → List Obs → Bool
  pub grid_to_points : Layer → Layer
  pub name_of_index : ℕ → Label
  pub localmap_name : Label
  -- motion models and filter options
  pub ModelSelection2 : Type 0
  pub selection2_of : String → Option ModelSelection2
  pub ModelSelection3 : Type 0
  pub selection3_of : String → Option ModelSelection3
  pub Algorithm : Type 0
  pub algorithm_of : String → Option Algorithm
  pub Resampling : Type 0
  pub resampling_of : String → Option Resampling
  pub Stats : Type 0
  pub no_stats : Stats
  -- random draws, numbered within one call
  pub draw_gaussian : ℕ → Real → Real → Real
  -- mp2p_icp and mola_relocalization, and whether the build has the latter
  pub have_mola : Bool
  pub Icp : Type 0
  pub icp_from : Node → Real → Icp
  pub ObsFilter : Type 0
  pub obs_filter_from : Node → ObsFilter
  pub is_empty_node : Node → Bool
  pub LocalMap : Type 0
  -- the default generator, then the observation filter
  pub local_map_of : ObsFilter → List Obs → LocalMap
  pub has_raw_points : LocalMap → Bool
  -- `mapByClass<COccupancyGridMap2D>()`
  pub grid_by_class : List (Option Layer) → Option Layer
