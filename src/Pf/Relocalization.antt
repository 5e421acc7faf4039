-- ===== src/Pf/Relocalization.antt =====
-- The two blocks of `onStateRunning` that change the particles before the filter: the pending
-- relocalization, and the helper samples from GNSS.
use mrpt_navigation.Base.{
  ℕ, zero, suc, ◌+◌, ◌*◌, Bool, true, false, none, some, List, [], ◌∷◌, ◌++◌, map, Result, ok, err,
  assertion_failed, if◌then◌else◌, ltb,
}
use mrpt_navigation.Pf.Library.{Mrpt}
use mrpt_navigation.Pf.Parameters.{Parameters, Gaussian}
use mrpt_navigation.Pf.State.{Core, Engine, Particles, RelocalizationInput}
use mrpt_navigation.Pf.Guess.{get_gnss_pose_prediction}

module _ (mrpt : Mrpt) where
  open mrpt use {
    Real, ratio, of_size, plus, times, round, Pose2, Pose3, pose2, x2, y2, phi, normalize_phi,
    flatten, Obs, local_map_of, has_raw_points, draw_gaussian,
  }

  -- One copy of a candidate, with the next three random draws.
  pub scattered : Real → Real → ℕ → Pose2 → Pose2
  scattered sigma_xy sigma_phi i p = normalize_phi (
      pose2 (plus (x2 p) (draw_gaussian i (ratio 0 1) sigma_xy))
        (plus (y2 p) (draw_gaussian (i + 1) (ratio 0 1) sigma_xy))
        (plus (phi p) (draw_gaussian (i + 2) (ratio 0 1) sigma_phi)))

  -- `for (i < numCopies) parts.emplace_back(p, 0.0)`, after `i` draws.
  unfoldable pub copies : Real → Real → ℕ → ℕ → Pose2 → Particles mrpt Pose2
  copies sigma_xy sigma_phi zero i p = []
  copies sigma_xy sigma_phi (suc n) i p =
      (scattered sigma_xy sigma_phi i p, ratio 0 1) ∷ copies sigma_xy sigma_phi n (i + 3) p

  unfoldable pub spread : Real → Real → ℕ → ℕ → List Pose2 → Particles mrpt Pose2
  unfolding copies scattered
  spread sigma_xy sigma_phi n i [] = []
  spread sigma_xy sigma_phi n i (p ∷ ps) =
      copies sigma_xy sigma_phi n i p ++ spread sigma_xy sigma_phi n (i + 3 * n) ps

  -- With no match, one candidate in the middle of the region.
  pub candidates_or_centre : RelocalizationInput mrpt → List Pose2 → List Pose2
  candidates_or_centre input [] =
      pose2 (times (ratio 1 2) (plus (x2 input.corner_max) (x2 input.corner_min)))
        (times (ratio 1 2) (plus (y2 input.corner_max) (y2 input.corner_min)))
        (times (ratio 1 2) (plus (phi input.corner_max) (phi input.corner_min)))
      ∷ []
  candidates_or_centre input (p ∷ ps) = p ∷ ps

  larger_size : ℕ → ℕ → ℕ
  larger_size a b = if ltb a b then b else a

  pub num_copies : Parameters mrpt → ℕ
  unfolding larger_size
  num_copies params =
      let sigma_xy = times params.relocalization.resolution_xy (ratio 33 100) in
      larger_size params.relocalization.min_sample_copies_per_candidate
        (round (times (of_size params.initial_particles_per_m2) (times sigma_xy sigma_xy)))

  module _ (engine : Engine mrpt) where
    open engine use {relocalize_se2, draw_sample}

    -- The particles that replace all others after a relocalization.
    unfoldable pub relocalized :
        Parameters mrpt → RelocalizationInput mrpt → List Pose2 → Particles mrpt Pose2
    unfolding candidates_or_centre
    relocalized params input found =
        spread (times params.relocalization.resolution_xy (ratio 33 100))
          (times params.relocalization.resolution_phi (ratio 33 100)) (num_copies params) 0
          (candidates_or_centre input found)

    -- The block "Any pending relocalization step?"; `false` is its early `return`. ICP may
    -- throw, for one if `icp` is the null pointer that it is without a pipeline.
    unfoldable pub relocalize : Core mrpt → List Obs → Core mrpt × Result Bool
    relocalize c sf = elim c.state.pending_se2 [
      | none ↦ (c, ok true)
      | some request ↦
          let local = local_map_of c.params.relocalization_obs_filter sf in
          let input = record request { local_map = some local } in
          let c' = record c { state = record (c.state) { pending_se2 = some input } } in
          if has_raw_points local
          then elim (relocalize_se2 input) [
            | err e ↦ (c', err e)
            | ok poses ↦ elim c.state.pdf2d [
              | none ↦ (c', err assertion_failed)
              | some pdf ↦ (
                record c {
                  state = record (c.state) {
                    pending_se2 = none;
                    pdf2d = some (record pdf { particles = relocalized c.params input poses });
                  };
                },
                ok true,
              )
            ]
          ]
          else (c', ok false)
    ]

    pub samples : Gaussian mrpt → ℕ → ℕ → Particles mrpt Pose3
    samples g zero i = []
    samples g (suc n) i = (draw_sample g i, ratio 0 1) ∷ samples g n (i + 1)

    -- The block "Draw additional helper samples from GNSS readings?"
    unfoldable pub add_gnss_samples : Core mrpt → Core mrpt
    unfolding samples
    add_gnss_samples c = elim (get_gnss_pose_prediction mrpt c.state.georeferencing c.last_gnss) [
      | none ↦ c
      | some guess ↦
          let drawn = samples guess c.params.samples_drawn_from_gnss 0 in
          elim c.state.pdf2d [
            | some pdf ↦ record c {
              state = record (c.state) {
                pdf2d = some (record pdf {
                  particles = pdf.particles ++ map (λ p. (flatten p.0, p.1)) drawn;
                });
              };
            }
            | none ↦ elim c.state.pdf3d [
              | some pdf ↦ record c {
                state = record (c.state) {
                  pdf3d = some (record pdf { particles = pdf.particles ++ drawn });
                };
              }
              | none ↦ c
            ]
          ]
    ]
