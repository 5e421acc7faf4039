-- ===== src/RawlogPlay/Node.antt =====
-- The parameters of `RawlogPlayNode`, its `init` and `loop`, and `main`.
pub mod Ends
pub mod Rounds
use Prim.Native.String.{String}
use mrpt_navigation.Base.{
  ℕ, zero, suc, ◌%◌, ◌^◌, Bool, true, false, Option, none, some, List, [], ◌∷◌, Result, ok, err,
  division_by_zero, if◌then◌else◌, value_or, ◌==◌,
}
use mrpt_navigation.Bridge.Sensors.{Bridge}
use mrpt_navigation.RawlogPlay.Library.{Rosbridge, Entry}
use mrpt_navigation.RawlogPlay.Observations.{Player}
use mrpt_navigation.RawlogPlay.Player.{next_entry}

-- `motionModelOptions`, as far as the node sets it
pub record GaussianModel (Real : Type 0) : Type 0 where
  pub a1 : Real
  pub a2 : Real
  pub a3 : Real
  pub a4 : Real
  pub min_std_xy : Real
  pub min_std_phi : Real

pub record RawLogRecordConfig (Real : Type 0) : Type 0 where
  pub motion_noise_type : ℕ
  pub motion_gaussian_alpha_1 : Real
  pub motion_gaussian_alpha_2 : Real
  pub motion_gaussian_alpha_3 : Real
  pub motion_gaussian_alpha_4 : Real
  pub motion_gaussian_alpha_xy : Real
  pub motion_gaussian_alpha_phi : Real

abbrev motion_model_gaussian : ℕ
motion_model_gaussian = 0

module _ (bridge : Bridge) (ros : Rosbridge bridge) where
  open bridge use {Real}

  -- `parameter_update_skip` is its value as an `unsigned long`; `is_gaussian` is whether the model
  -- selection has been set to `mmGaussian`.
  pub record Parameters : Type 0 where
    pub rawlog_file : String
    pub odom_frame : String
    pub base_frame : String
    pub parameter_update_skip : ℕ
    pub debug : Bool
    pub is_gaussian : Bool
    pub gaussian_model : GaussianModel Real

  -- The parameter server's `debug` and the configurations that arrive, at each round.
  pub record Outside : Type 0 where
    pub debug_param : ℕ → Option Bool
    pub reconfigured : ℕ → List (RawLogRecordConfig Real)
    pub file : String → Option (List (Entry bridge ros))

  pub update : Option Bool → ℕ → Parameters → Result Parameters
  update answer loop_count p =
      if p.parameter_update_skip == 0
      then err division_by_zero
      else if loop_count % p.parameter_update_skip == 0
      then ok (record p { debug = value_or answer p.debug })
      else ok p

  callback_parameters : RawLogRecordConfig Real → Parameters → Parameters
  callback_parameters c p =
      if c.motion_noise_type == motion_model_gaussian
      then record p {
        is_gaussian = true;
        gaussian_model = record {
          a1 = c.motion_gaussian_alpha_1;
          a2 = c.motion_gaussian_alpha_2;
          a3 = c.motion_gaussian_alpha_3;
          a4 = c.motion_gaussian_alpha_4;
          min_std_xy = c.motion_gaussian_alpha_xy;
          min_std_phi = c.motion_gaussian_alpha_phi;
        };
      }
      else p

  -- `ros::spinOnce`
  pub spin_once : List (RawLogRecordConfig Real) → Parameters → Parameters
  unfolding callback_parameters
  spin_once [] p = p
  spin_once (c ∷ cs) p = spin_once cs (callback_parameters c p)

  pub record Run : Type 0 where
    pub parameters : Parameters
    pub player : Player bridge ros
    pub outcome : Result (Unit {0})
    -- whether the end of the rawlog has been read
    pub end : Bool

  -- `loop`, where `ros::ok()` holds for a number of rounds.
  pub loop : ℕ → Outside → Parameters → Player bridge ros → Run
  unfolding update spin_once
  loop zero outside p s = record { parameters = p; player = s; outcome = ok tt; end = false }
  loop (suc rounds) outside p s = elim (update (outside.debug_param s.loop_count) s.loop_count p) [
    | err e ↦ record { parameters = p; player = s; outcome = err e; end = false }
    | ok p' ↦
        let (s', r) = next_entry bridge ros s in
        let counted = record s' { loop_count = suc s'.loop_count % 2 ^ 64 } in
        let spun = spin_once (outside.reconfigured s.loop_count) p' in
        elim r [
          | err e ↦ record { parameters = p'; player = s'; outcome = err e; end = false }
          | ok true ↦ record { parameters = spun; player = counted; outcome = ok tt; end = true }
          | ok false ↦ loop rounds outside spun counted
        ]
  ]

  -- `init`, or `none` if it shuts ROS down.
  init : Outside → Parameters → Player bridge ros → Option (Player bridge ros)
  init outside p s = elim (outside.file p.rawlog_file) [
    | none ↦ none
    | some entries ↦ some (record s {
      rawlog_stream = entries;
      odom_frame = p.odom_frame;
      base_frame = p.base_frame;
      robot_pose = ros.no_pdf;
    })
  ]

  -- `main`
  pub run_main : ℕ → Outside → Parameters → Player bridge ros → Run
  unfolding init loop
  run_main rounds outside p s = elim (init outside p s) [
    | none ↦ loop 0 outside p s
    | some s' ↦ loop rounds outside p s'
  ]
