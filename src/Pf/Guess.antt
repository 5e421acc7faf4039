-- ===== src/Pf/Guess.antt =====
-- Where to start: `get_gnss_pose_prediction`, and the initial pose of `onStateToBeInitialized` with
-- the region around it.
use mrpt_navigation.Base.{
  ℕ, not, ◌&&◌, ◌||◌, Option, none, some, Result, ok, ◌>>=◌, ◌>>◌, assert, or_throw, null_pointer,
  assertion_failed, if◌then◌else◌, has_value,
}
use mrpt_navigation.Pf.Library.{Mrpt}
use mrpt_navigation.Pf.Parameters.{Gaussian}
use mrpt_navigation.Pf.State.{Core}

module _ (mrpt : Mrpt) where
  open mrpt use {
    Real, ratio, of_size, negate, plus, minus, times, over, square_root, larger, smaller, pi,
    to_size, deg2rad, Pose2, Pose3, pose3, x, y, z, yaw, pitch, roll, flatten, lift, norm3, Cov,
    cov_at, diagonal, Geo, Obs, gga_coords, to_map, gps_cov, gps_block, Label, label_key, Layer,
    localmap_name, name_of_index, grid_by_class, grid_to_points, have_mola,
  }

  square : Real → Real
  square a = times a a

  zero_real : Real
  zero_real = ratio 0 1

  -- The covariance given for a GPS fix, or one of 5 m; the yaw is unknown.
  gnss_cov : Obs → Cov
  unfolding square zero_real
  gnss_cov gps = elim (gps_cov gps) [
    | some cov ↦ gps_block cov (square pi)
    | none ↦
        diagonal (square (ratio 5 1)) (square (ratio 5 1)) (square (ratio 5 1)) (square pi)
          zero_real zero_real
  ]

  -- `FromTranslation`: the position with no rotation.
  gnss_mean : Pose3 → Pose3
  unfolding zero_real
  gnss_mean p = pose3 (x p) (y p) (z p) zero_real zero_real zero_real

  pub get_gnss_pose_prediction : Option Geo → Option Obs → Option (Gaussian mrpt)
  unfolding gnss_cov gnss_mean
  get_gnss_pose_prediction none last_gnss = none
  get_gnss_pose_prediction (some geo) none = none
  get_gnss_pose_prediction (some geo) (some gps) = elim (gga_coords gps) [
    | none ↦ none
    | some coords ↦ some (record { mean = gnss_mean (to_map geo coords); cov = gnss_cov gps })
  ]

  -- Mean and covariance of the initial pose, and `gnss_std_factor`.
  unfoldable pub initial_guess : Core mrpt → Result (Gaussian mrpt × Real)
  initial_guess c =
      if not c.params.initialize_from_gnss
        || (not (has_value c.last_gnss) && has_value c.params.initial_pose)
      then (do guess ← or_throw c.params.initial_pose null_pointer; ok (guess, ratio 1 1))
      else (do
        assert (has_value c.state.georeferencing)
        guess ←
            or_throw (get_gnss_pose_prediction c.state.georeferencing c.last_gnss) assertion_failed
        ok (guess, over c.params.gnss_samples_num_sigmas c.params.relocalize_num_sigmas))

  std_at : Gaussian mrpt → ℕ → Real
  std_at g i = square_root (cov_at g.cov i)

  -- `pMin`: so many standard deviations below the mean, with the angles cut at -pi.
  pub region_min : Gaussian mrpt → Real → Pose3
  unfolding std_at
  region_min g n =
      pose3 (minus (x g.mean) (times n (std_at g 0))) (minus (y g.mean) (times n (std_at g 1)))
        (minus (z g.mean) (times n (std_at g 2)))
        (larger (negate pi) (minus (yaw g.mean) (times n (std_at g 3))))
        (larger (negate pi) (minus (pitch g.mean) (times n (std_at g 4))))
        (larger (negate pi) (minus (roll g.mean) (times n (std_at g 5))))

  -- `pMax`
  pub region_max : Gaussian mrpt → Real → Pose3
  unfolding std_at
  region_max g n =
      pose3 (plus (x g.mean) (times n (std_at g 0))) (plus (y g.mean) (times n (std_at g 1)))
        (plus (z g.mean) (times n (std_at g 2)))
        (smaller pi (plus (yaw g.mean) (times n (std_at g 3))))
        (smaller pi (plus (pitch g.mean) (times n (std_at g 4))))
        (smaller pi (plus (roll g.mean) (times n (std_at g 5))))

  pub initial_particle_count : Core mrpt → Pose3 → Pose3 → ℕ
  initial_particle_count c lo hi = to_size (
      times (of_size c.params.initial_particles_per_m2)
        (larger (ratio 10 1) (times (minus (x hi) (x lo)) (minus (y hi) (y lo)))))
