-- ===== src/Examples/PfStates.antt =====
-- The core of mrpt_pf_localization on a few observations.
use mrpt_navigation.Base.{
  ℕ, true, false, Option, none, some, List, [], ◌∷◌, err, Exception, class_conflict, ◌≡◌, refl, inl,
  inr,
}
use mrpt_navigation.Base.StdMap.{nat_key, find, IsSorted}
use mrpt_navigation.Pf.Parameters.{Parameters, MultiMap, MotionModel2}
use mrpt_navigation.Pf.State.{Core, running, to_be_initialized, new_state}
use mrpt_navigation.Pf.Queue.{collect, collect_one, nothing_collected, Collected}
use mrpt_navigation.Pf.Queue.Latest.{latest, collect-latest}
use mrpt_navigation.Pf.Queue.Conflicts.{Conflict, collect-err_iff}
use mrpt_navigation.Pf.Initialize.{on_state_to_be_initialized}
use mrpt_navigation.Pf.Initialize.Started.{on_state_to_be_initialized-running}
use mrpt_navigation.Pf.Running.{on_state_running}
use mrpt_navigation.Pf.Running.Drained.{on_state_running-queue}
use mrpt_navigation.Pf.Api.{observes, steps, sets_fake_odometry, step, after_all}
use mrpt_navigation.Pf.Api.Poisoned.{poisoned_forever}
use mrpt_navigation.Examples.Toy.{toy, engine, Reading}

abbrev still : MotionModel2 toy
still = record {
  selection = 0;
  a1 = 0;
  a2 = 0;
  a3 = 0;
  a4 = 0;
  min_std_xy = 0;
  min_std_phi = 0;
  alfa1_rot_rot = 0;
  alfa2_rot_trans = 0;
  alfa3_trans_trans = 0;
  alfa4_trans_rot = 0;
  additional_std_xy = 0;
  additional_std_phi = 0;
}

abbrev pub parameters : Parameters toy
parameters = record {
  initial_pose = some (record { mean = ((5, 5, 0), (0, 0, 0)); cov = λ i. 1 });
  metric_map = none;
  georeferencing = none;
  metric_map_layer_names = [];
  gui_enable = false;
  use_se3_pf = false;
  gui_camera_follow_robot = true;
  motion_model_2d = still;
  motion_model_no_odom_2d = still;
  motion_model_3d = 0;
  motion_model_no_odom_3d = 0;
  pf_options = record {
    beta = 1;
    algorithm = 0;
    resampling = 0;
    adaptive_sample_size = true;
    maximum_search_samples = 10;
    pow_factor = 1;
    max_loglikelihood_dyn_range = 15;
    first_stage_weights_monte_carlo = false;
    optimal_mle = false;
  };
  kld_options = record {
    bin_size_xy = 1;
    bin_size_phi = 1;
    delta = 1;
    epsilon = 1;
    max_sample_size = 100;
    min_sample_size = 10;
    min_samples_per_bin = 0;
  };
  override_likelihood_point_maps = none;
  override_likelihood_gridmaps = none;
  initial_particles_per_m2 = 10;
  initialize_from_gnss = false;
  samples_drawn_from_gnss = 20;
  gnss_samples_num_sigmas = 6;
  relocalize_num_sigmas = 3;
  relocalization = record {
    minimum_icp_quality = 1;
    icp_sigma = 5;
    resolution_xy = 1;
    min_sample_copies_per_candidate = 4;
    resolution_phi = 1;
    initial_divisions_xy = 4;
    initial_divisions_phi = 4;
  };
  relocalization_icp = none;
  relocalization_obs_filter = tt;
}

-- Two scans of the laser 1, and an odometry reading that also calls itself 1.
abbrev pub scan : Reading
scan = record { label = 1; kind = 7; stamp = 10; odometry = none }

abbrev later_scan : Reading
later_scan = record { label = 1; kind = 7; stamp = 12; odometry = none }

abbrev wheels : Reading
wheels = record { label = 0; kind = 3; stamp = 11; odometry = some (1, 0, 0) }

abbrev impostor : Reading
impostor = record { label = 1; kind = 3; stamp = 13; odometry = some (1, 0, 0) }

abbrev three : List (Option Reading)
three = some scan ∷ none ∷ some wheels ∷ some later_scan ∷ []

abbrev pub mapped : MultiMap toy
mapped = record { maps = some 1 ∷ [] }

abbrev running_with : List (Option Reading) → Core toy
running_with os = record {
  params = parameters;
  state = record (new_state toy) {
    fsm_state = running;
    metric_map = some mapped;
    pdf2d = some (record { particles = ((1, 1, 0), 0) ∷ []; options = none });
    pending_obs = os;
  };
  last_gnss = none;
}

abbrev ready : Core toy
ready = record {
  params = record parameters { metric_map = some mapped };
  state = record (new_state toy) { fsm_state = to_be_initialized };
  last_gnss = none;
}

abbrev clash : Conflict toy (some scan ∷ some impostor ∷ [])
clash = record {
  one = scan;
  other = impostor;
  one_queued = inl refl;
  other_queued = inr (inl refl);
  same_label = refl;
  other_class = λ e. cc;
}

on_state_running-queue_example :
    (Conflict toy three
      → on_state_running toy engine (running_with three) ≡ (running_with three, err class_conflict))
    × (¬ Conflict toy three
        → (on_state_running toy engine (running_with three)).0.state.pending_obs ≡ [])
on_state_running-queue_example = on_state_running-queue toy engine (running_with three)

abbrev gathered : Collected toy
gathered = record {
  obs_by_label = (0, wheels) ∷ (1, later_scan) ∷ [];
  class_by_label = (0, 3) ∷ (1, 7) ∷ [];
  last_stamp = some 12;
}

collect-latest_example :
    IsSorted gathered.obs_by_label × ((l : ℕ) → find l gathered.obs_by_label ≡ latest toy l three)
unfolding collect collect_one
collect-latest_example = collect-latest toy three {w = gathered} refl

collect-err_iff_example :
    (((e : Exception) × (collect toy (some scan ∷ some impostor ∷ []) (nothing_collected toy)
          ≡ err e))
      → Conflict toy (some scan ∷ some impostor ∷ []))
    × (Conflict toy (some scan ∷ some impostor ∷ [])
        → collect toy (some scan ∷ some impostor ∷ []) (nothing_collected toy) ≡ err class_conflict)
collect-err_iff_example = collect-err_iff toy (some scan ∷ some impostor ∷ [])

on_state_to_be_initialized-running_example :
    ((on_state_to_be_initialized toy engine ready).0.state.fsm_state ≡ running)
    × ((on_state_to_be_initialized toy engine ready).0.state.pending_obs ≡ [])
on_state_to_be_initialized-running_example = on_state_to_be_initialized-running toy engine ready

poisoned_forever_example :
    (step toy engine (
      after_all toy engine
        (observes (some wheels) ∷ steps ∷ sets_fake_odometry ((1, 0, 0), (0, 0, 0)) ∷ [])
        (running_with (some scan ∷ some impostor ∷ [])))).1
    ≡ err class_conflict
poisoned_forever_example =
    poisoned_forever toy engine
      (observes (some wheels) ∷ steps ∷ sets_fake_odometry ((1, 0, 0), (0, 0, 0)) ∷ [])
      (running_with (some scan ∷ some impostor ∷ [])) (refl, (refl, (refl, tt))) refl clash
