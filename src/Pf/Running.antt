-- ===== src/Pf/Running.antt =====
-- `onStateRunning` of mrpt_pf_localization_core.cpp, without logging; the
-- debug window is Pf/Window.
pub mod Stages
pub mod Ran
pub mod Drained
use mrpt_navigation.Base.{
  ℕ, zero, suc, ◌+◌, ◌*◌, ◌<◌, Bool, true, false, not, ◌&&◌, ◌||◌, Option, none, some, List, [],
  ◌∷◌, ◌++◌, map, Result, ok, err, ◌>>=◌, ◌>>◌, assert, or_throw, null_pointer, assertion_failed,
  if◌then◌else◌, has_value, value_or, is_empty, length, ltb, leb,
}
use mrpt_navigation.Pf.Library.{Mrpt}
use mrpt_navigation.Pf.Parameters.{Parameters, Gaussian, MultiMap}
use mrpt_navigation.Pf.State.{
  Core, Engine, Pdf, Particles, InternalState, RelocalizationInput, Action, planar, spatial,
}
use mrpt_navigation.Pf.Queue.{Collected, collect, nothing_collected, sensory_frame}
use mrpt_navigation.Pf.Initialize.{fill_last_result}
use mrpt_navigation.Pf.Relocalization.{relocalize, add_gnss_samples}

module _ (mrpt : Mrpt) where
  open mrpt use {
    Real, ratio, of_size, plus, times, round, Pose2, Pose3, pose2, x2, y2, phi, normalize_phi,
    identity2, identity3, relative2, flatten, lift, Obs, Stamp, as_odometry, Layer,
    can_compute_likelihood, local_map_of, has_raw_points, draw_gaussian,
  }

  -- Is there a layer that can use the frame? A null layer before that is a null pointer.
  likelihood_loop : List (Option Layer) → List Obs → Result Bool
  likelihood_loop [] sf = ok false
  likelihood_loop (none ∷ ms) sf = err null_pointer
  likelihood_loop (some m ∷ ms) sf =
      let rest = likelihood_loop ms sf in if can_compute_likelihood m sf then ok true else rest

  pub can_use : Core mrpt → List Obs → Result Bool
  unfolding likelihood_loop
  can_use c sf = elim c.state.metric_map [
    | none ↦ err null_pointer
    | some mm ↦ likelihood_loop mm.maps sf
  ]

  -- The last odometry of the frame.
  pub last_odometry : List Obs → Option Pose2
  last_odometry [] = none
  last_odometry (o ∷ os) = elim (last_odometry os) [ none ↦ as_odometry o | some p ↦ some p ]

  -- The increment since the odometry of the last step, if there was one.
  pub odometry_increment : Option Pose2 → Pose2 → Pose2
  odometry_increment none now = identity2
  odometry_increment (some before) now = relative2 now before

  -- The block "Action", and `nextFakeOdometryIncrPose.reset()`.
  pub build_action : Core mrpt → List Obs → Option Stamp → Core mrpt × Action mrpt
  build_action c sf stamp = elim (last_odometry sf) [
    | some odom ↦
        let inc = odometry_increment c.state.last_odom odom in
        (
          record c {
            state = record (c.state) { last_odom = some odom; next_fake_odometry_incr_pose = none };
          },
          if has_value c.state.pdf3d
              then spatial stamp (lift inc) c.params.motion_model_3d
              else planar stamp inc c.params.motion_model_2d,
        )
    | none ↦
        let inc = value_or c.state.next_fake_odometry_incr_pose identity3 in
        (
          record c { state = record (c.state) { next_fake_odometry_incr_pose = none } },
          if has_value c.state.pdf3d
              then spatial stamp inc c.params.motion_model_no_odom_3d
              else planar stamp (flatten inc) c.params.motion_model_no_odom_2d,
        )
  ]

  -- "Make sure params are up-to-date in the PF". A missing filter is a null pointer.
  pub refresh_options : Core mrpt → Result (Core mrpt)
  refresh_options c =
      let options =
        some (record { kld = c.params.kld_options; metric_map = c.params.metric_map }) in
      elim c.state.pdf2d [
        | some pdf ↦ ok (record c {
          state = record (c.state) {
            pf_options = some c.params.pf_options;
            pdf2d = some (record pdf { options = options });
          };
        })
        | none ↦ elim c.state.pdf3d [
          | some pdf ↦ ok (record c {
            state = record (c.state) {
              pf_options = some c.params.pf_options;
              pdf3d = some (record pdf { options = options });
            };
          })
          | none ↦ err null_pointer
        ]
      ]

  module _ (engine : Engine mrpt) where
    open engine use {execute2, execute3}

    -- "Process PF" up to the end. An exception of the filter leaves the state of before.
    pub execute : Core mrpt → Action mrpt → List Obs → Option Stamp → Core mrpt × Result (Unit {0})
    execute c action sf stamp = elim c.state.pdf2d [
      | some pdf ↦ elim (execute2 c.state.pf_options pdf action sf) [
        | err e ↦ (c, err e)
        | ok (particles, stats) ↦ (
          record c {
            state = fill_last_result mrpt (record (c.state) {
              pf_stats = stats;
              pdf2d = some (record pdf { particles = particles });
              time_last_update = stamp;
            });
            last_gnss = none;
          },
          ok tt,
        )
      ]
      | none ↦ elim c.state.pdf3d [
        | none ↦ (c, err null_pointer)
        | some pdf ↦ elim (execute3 c.state.pf_options pdf action sf) [
          | err e ↦ (c, err e)
          | ok (particles, stats) ↦ (
            record c {
              state = fill_last_result mrpt (record (c.state) {
                pf_stats = stats;
                pdf3d = some (record pdf { particles = particles });
                time_last_update = stamp;
              });
              last_gnss = none;
            },
            ok tt,
          )
        ]
      ]
    ]

    refreshed :
        Core mrpt
        → Action mrpt
        → List Obs
        → Option Stamp
        → Result (Core mrpt)
        → Core mrpt × Result (Unit {0})
    refreshed c action sf stamp (err e) = (c, err e)
    refreshed c action sf stamp (ok c') = execute (add_gnss_samples mrpt engine c') action sf stamp

    -- After relocalization: options, GNSS samples, filter.
    pub update_filter :
        Core mrpt → Action mrpt → List Obs → Option Stamp → Core mrpt × Result (Unit {0})
    unfolding refresh_options refreshed
    update_filter c action sf stamp = refreshed c action sf stamp (refresh_options c)

    proceed :
        Action mrpt
        → List Obs
        → Option Stamp
        → Core mrpt × Result Bool
        → Core mrpt × Result (Unit {0})
    proceed action sf stamp (c, err e) = (c, err e)
    proceed action sf stamp (c, ok false) = (c, ok tt)
    proceed action sf stamp (c, ok true) = update_filter c action sf stamp

    -- With a usable frame: action, relocalization, filter.
    pub process : Core mrpt → List Obs → Option Stamp → Core mrpt × Result (Unit {0})
    unfolding proceed
    process c sf stamp =
        let (moved, action) = build_action c sf stamp in
        proceed action sf stamp (relocalize mrpt engine moved sf)

    used : Core mrpt → List Obs → Option Stamp → Result Bool → Core mrpt × Result (Unit {0})
    used c sf stamp (err e) = (c, err e)
    used c sf stamp (ok true) = process c sf stamp
    used c sf stamp (ok false) = (record c { state = fill_last_result mrpt c.state }, ok tt)

    -- `state_.pendingObs.clear()`
    pub without_queue : Core mrpt → Core mrpt
    without_queue c = record c { state = record (c.state) { pending_obs = [] } }

    drained : Core mrpt → Result (Collected mrpt) → Core mrpt × Result (Unit {0})
    unfolding used without_queue
    drained c (err e) = (c, err e)
    drained c (ok w) =
        let sf = sensory_frame mrpt w in
        used (without_queue c) sf w.last_stamp (can_use (without_queue c) sf)

    -- A conflict of classes leaves the queue as it is. The calls of `update_gui` are left out: the
    -- window is in Pf/Window, and the step is the one of a core whose window is off.
    pub on_state_running : Core mrpt → Core mrpt × Result (Unit {0})
    unfolding drained
    on_state_running c = drained c (collect mrpt c.state.pending_obs (nothing_collected mrpt))
