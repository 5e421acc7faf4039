-- ===== src/Pf/Estimate.antt =====
-- The estimate that `update_gui` of mrpt_pf_localization_core.cpp draws: a mean and a 6x6 covariance,
-- from either filter.
use mrpt_navigation.Base.{
  ℕ, ◌==◌, ◌&&◌, Bool, Option, none, some, List, [], ◌∷◌, Result, ok, err, null_pointer,
  if◌then◌else◌,
}
use mrpt_navigation.Pf.Library.{Mrpt}
use mrpt_navigation.Pf.State.{Core, Particles, Pdf}

module _ (mrpt : Mrpt) where
  open mrpt use {Real, ratio, Pose2, Pose3, lift, Obs, Stamp}

  -- A matrix by row and column.
  abbrev pub Matrix : Type 0
  Matrix = ℕ → ℕ → Real

  -- `blockCopy<2, 2>` and `blockCopy<3, 3>`, by rows
  abbrev pub Block2 : Type 0
  Block2 = (Real × Real) × (Real × Real)

  abbrev pub block2 : Matrix → Block2
  block2 m = ((m 0 0, m 0 1), (m 1 0, m 1 1))

  abbrev pub Block3 : Type 0
  Block3 = (Real × Real × Real) × (Real × Real × Real) × (Real × Real × Real)

  abbrev pub block3 : Matrix → Block3
  block3 m = ((m 0 0, m 0 1, m 0 2), (m 1 0, m 1 1, m 1 2), (m 2 0, m 2 1, m 2 2))

  -- What MRPT computes from particles and frames. `has_wxwidgets` is how MRPT was built.
  pub record Graphics : Type 1 where
    pub has_wxwidgets : Bool
    pub is_valid : Stamp → Bool
    pub covariance_and_mean2 : Particles mrpt Pose2 → Matrix × Pose2
    pub covariance_and_mean3 : Particles mrpt Pose3 → Matrix × Pose3
    pub Points : Type 0
    pub no_points : Points
    -- `insertObservationsInto` an empty map
    pub points_of_frame : List Obs → Points

  -- `cov.setZero()`
  zero_matrix : Matrix
  zero_matrix i j = ratio 0 1

  write : Matrix → ℕ → ℕ → Real → Matrix
  write m i j v i' j' = if (i' == i) && (j' == j) then v else m i' j'

  -- `remapIdx`
  remap_index : ℕ → ℕ
  remap_index i = if i == 2 then 3 else i

  -- The inner and the outer loop over the indices of the planar covariance.
  remap_row : Matrix → ℕ → List ℕ → Matrix → Matrix
  unfolding write remap_index
  remap_row cov2 i [] cov = cov
  remap_row cov2 i (j ∷ js) cov =
      remap_row cov2 i js (write cov (remap_index i) (remap_index j) (cov2 i j))

  remap_rows : Matrix → List ℕ → Matrix → Matrix
  unfolding remap_row
  remap_rows cov2 [] cov = cov
  remap_rows cov2 (i ∷ is) cov = remap_rows cov2 is (remap_row cov2 i (0 ∷ 1 ∷ 2 ∷ []) cov)

  pub record Estimate : Type 0 where
    pub mean : Pose3
    pub cov : Matrix

  module _ (graphics : Graphics) where
    open graphics use {covariance_and_mean2, covariance_and_mean3}

    -- The planar filter's estimate if there is one, else the spatial filter's. With neither, a null
    -- pointer.
    unfoldable pub estimate_of : Option (Pdf mrpt Pose2) → Option (Pdf mrpt Pose3) → Result Estimate
    unfolding zero_matrix remap_rows
    estimate_of (some pdf) spatial =
        let (cov2, mean2) = covariance_and_mean2 pdf.particles in
        ok (record { mean = lift mean2; cov = remap_rows cov2 (0 ∷ 1 ∷ 2 ∷ []) zero_matrix })
    estimate_of none (some pdf) =
        let (cov3, mean3) = covariance_and_mean3 pdf.particles in
        ok (record { mean = mean3; cov = cov3 })
    estimate_of none none = err null_pointer

    unfoldable pub estimated_pose : Core mrpt → Result Estimate
    unfolding estimate_of
    estimated_pose c = estimate_of c.state.pdf2d c.state.pdf3d
