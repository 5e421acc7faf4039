-- ===== src/Pf/Initialize.antt =====
-- `onStateUninitialized`, `onStateToBeInitialized` and `internal_fill_state_lastResult` of
-- mrpt_pf_localization_core.cpp, without logging.
pub mod Initialized
pub mod Started
use mrpt_navigation.Base.{
  ℕ, zero, suc, ◌+◌, Bool, true, false, not, ◌&&◌, ◌||◌, Option, none, some, List, [], ◌∷◌, map,
  Result, ok, err, ◌>>=◌, ◌>>◌, assert, or_throw, null_pointer, assertion_failed, if◌then◌else◌,
  has_value, is_empty, length, ◌==◌, get_elem?,
}
use mrpt_navigation.Base.StdMap.{Key, assign}
use mrpt_navigation.Pf.Library.{Mrpt}
use mrpt_navigation.Pf.Parameters.{Parameters, Gaussian, MultiMap}
use mrpt_navigation.Pf.State.{
  FsmState, to_be_initialized, running, Core, Engine, Pdf, Particles, InternalState,
  RelocalizationInput, new_state,
}
use mrpt_navigation.Pf.Guess.{initial_guess, region_min, region_max, initial_particle_count}

module _ (mrpt : Mrpt) where
  open mrpt use {
    Real, ratio, of_size, negate, plus, minus, times, over, square_root, larger, smaller, pi,
    to_size, deg2rad, Pose2, Pose3, pose3, x, y, z, yaw, pitch, roll, flatten, lift, norm3, Cov,
    cov_at, diagonal, Geo, Obs, gga_coords, to_map, gps_cov, gps_block, Label, label_key, Layer,
    localmap_name, name_of_index, grid_by_class, grid_to_points, have_mola,
  }

  -- The condition of `onStateUninitialized`.
  pub is_ready : Core mrpt → Bool
  is_ready c =
      ((not c.params.initialize_from_gnss && has_value c.params.initial_pose)
        || (c.params.initialize_from_gnss && has_value c.last_gnss))
      && has_value c.params.metric_map

  pub on_state_uninitialized : Core mrpt → Core mrpt
  unfolding is_ready
  on_state_uninitialized c =
      if is_ready c
      then record c { state = record (c.state) { fsm_state = to_be_initialized } }
      else c

  pub fill_last_result : InternalState mrpt → InternalState mrpt
  fill_last_result s = elim s.pdf2d [
    | some pdf ↦ record s { last_result = some (map (λ p. (lift p.0, p.1)) pdf.particles) }
    | none ↦ elim s.pdf3d [ some pdf ↦ record s { last_result = some pdf.particles } | none ↦ s ]
  ]

  -- `layers[name] = maps.at(i)`, the names being given or numbers.
  name_layers :
      List Label
      → ℕ
      → List (Option Layer)
      → List (Label × Option Layer)
      → List (Label × Option Layer)
  name_layers names i [] layers = layers
  name_layers names i (m ∷ ms) layers = name_layers names (i + 1) ms (
      assign ⦃o = label_key⦄ (elim (get_elem? names i) [ none ↦ name_of_index i | some l ↦ l ]) m
        layers)

  -- A plain grid map gets a point cloud for ICP.
  add_localmap : Option Layer → List (Label × Option Layer) → List (Label × Option Layer)
  add_localmap none layers = layers
  add_localmap (some grid) layers =
      assign ⦃o = label_key⦄ localmap_name (some (grid_to_points grid)) layers

  -- Option 2: leave the samples to mola_relocalization in the next step.
  pub relocalization_request : Core mrpt → Pose3 → Pose3 → RelocalizationInput mrpt
  relocalization_request c lo hi = record {
    icp_minimum_quality = c.params.relocalization.minimum_icp_quality;
    icp = c.params.relocalization_icp;
    corner_min = flatten lo;
    corner_max = flatten hi;
    resolution_xy = larger (ratio 1 2) (
        over
          (norm3 (
            pose3 (minus (x hi) (x lo)) (minus (y hi) (y lo)) (minus (z hi) (z lo))
              (minus (yaw hi) (yaw lo)) (minus (pitch hi) (pitch lo)) (minus (roll hi) (roll lo))))
          (of_size c.params.relocalization.initial_divisions_xy));
    resolution_phi =
        larger (deg2rad (ratio 5 1))
          (over (minus (yaw hi) (yaw lo)) (of_size c.params.relocalization.initial_divisions_phi));
    output_resolution_xyz = c.params.relocalization.resolution_xy;
    output_resolution_yaw = c.params.relocalization.resolution_phi;
    reference_layers = [];
    local_map = none;
  }

  pub reference_map : Core mrpt → MultiMap mrpt → Result (List (Label × Option Layer))
  unfolding name_layers add_localmap
  reference_map c mm = do
    assert (not (is_empty mm.maps))
    assert (
        is_empty c.params.metric_map_layer_names
        || (length c.params.metric_map_layer_names == length mm.maps))
    ok (
        add_localmap (grid_by_class mm.maps)
          (name_layers c.params.metric_map_layer_names 0 mm.maps []))

  module _ (engine : Engine mrpt) where
    open engine use {reset_uniform2, reset_uniform3, reset_uniform_free_space}

    -- Option 1: free space of a grid map, else (or if that throws) the whole region.
    pub initial_particles2 : MultiMap mrpt → ℕ → Pose3 → Pose3 → Particles mrpt Pose2
    initial_particles2 mm n lo hi =
        let everywhere = reset_uniform2 (x lo) (x hi) (y lo) (y hi) (yaw lo) (yaw hi) n in
        elim (grid_by_class mm.maps) [
          | none ↦ everywhere
          | some grid ↦
              elim (reset_uniform_free_space grid (ratio 7 10) n (x lo) (x hi) (y lo) (y hi)
                (yaw lo) (yaw hi)) [ none ↦ everywhere | some particles ↦ particles ]
        ]

    -- Samples, or the request to relocalize, in a state whose filter has just been created.
    pub initial_samples :
        Core mrpt → MultiMap mrpt → Gaussian mrpt → Real → InternalState mrpt × Result (Unit {0})
    initial_samples c mm guess n =
        let lo = region_min mrpt guess n in
        let hi = region_max mrpt guess n in
        let count = initial_particle_count mrpt c lo hi in
        let request = relocalization_request c lo hi in
        if c.params.use_se3_pf
        then (
          record (c.state) {
            pdf3d = some (record { particles = reset_uniform3 lo hi count; options = none });
          },
          ok tt,
        )
        else if have_mola
        then elim (reference_map c mm) [
          | err e ↦ (record (c.state) { pending_se2 = some request }, err e)
          | ok layers ↦ (
            record (c.state) { pending_se2 = some (record request { reference_layers = layers }) },
            ok tt,
          )
        ]
        else (
          record (c.state) {
            pdf2d = some (record { particles = initial_particles2 mm count lo hi; options = none });
          },
          ok tt,
        )

    -- The state after `fsm_state`, the map and an empty filter have been set.
    pub prepared : Core mrpt → MultiMap mrpt → Core mrpt
    prepared c mm = record c {
      state = record (new_state mrpt) {
        fsm_state = running;
        metric_map = some mm;
        georeferencing = c.params.georeferencing;
        pdf2d =
            if c.params.use_se3_pf then none else some (record { particles = []; options = none });
        pdf3d =
            if c.params.use_se3_pf then some (record { particles = []; options = none }) else none;
      };
    }

    sampled : Core mrpt → InternalState mrpt × Result (Unit {0}) → Core mrpt × Result (Unit {0})
    sampled c (s, ok _) = (record c { state = fill_last_result s }, ok tt)
    sampled c (s, err e) = (record c { state = s }, err e)

    guessed :
        Core mrpt → MultiMap mrpt → Result (Gaussian mrpt × Real) → Core mrpt × Result (Unit {0})
    unfolding sampled
    guessed c mm (err e) = (c, err e)
    guessed c mm (ok (guess, factor)) =
        sampled c (initial_samples c mm guess (times c.params.relocalize_num_sigmas factor))

    -- An exception leaves what has been set before it: the state is RUNNING by then.
    pub on_state_to_be_initialized : Core mrpt → Core mrpt × Result (Unit {0})
    unfolding guessed
    on_state_to_be_initialized c = elim c.params.metric_map [
      | none ↦ (
        record c { state = record (new_state mrpt) { fsm_state = running } },
        err assertion_failed,
      )
      | some mm ↦ guessed (prepared c mm) mm (initial_guess mrpt (prepared c mm))
    ]
