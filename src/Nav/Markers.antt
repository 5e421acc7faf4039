-- ===== src/Nav/Markers.antt =====
-- `log_to_margers` of mrpt_reactivenav2d_node.cpp: the selected path, drawn as a line.
pub mod Bounds
use Prim.Native.String.{String}
use mrpt_navigation.Base.{
  ℕ, zero, suc, ◌+◌, ◌-◌, ◌^◌, ◌%◌, Bool, true, false, not, ◌||◌, ◌&&◌, Option, none, some, List,
  [], ◌∷◌, Result, ok, err, ◌>>=◌, ◌>>◌, assert, or_throw, out_of_range, if◌then◌else◌, ltb, leb,
  ◌==◌, get_elem?,
}
use mrpt_navigation.Nav.Library.{Mrpt, LogRecord}

module _ (mrpt : Mrpt) where
  open mrpt use {
    Real, ratio, over, to_size, Engine, alpha_index, step_count, step_duration, path_pose, positive,
  }

  -- `visualization_msgs::msg::Marker`: its colour, scale and stamp are left out.
  pub record Marker : Type 0 where
    pub frame_id : String
    pub points : List (Real × Real)

  -- `n - 1` of a `size_t`
  unfoldable pub before_last : ℕ → ℕ
  before_last n = (n + (2 ^ 64 - 1)) % 2 ^ 64

  unfoldable pub smaller_size : ℕ → ℕ → ℕ
  smaller_size a b = if ltb b a then b else a

  unfoldable pub num_steps_to_draw : ℕ → Real → ℕ
  unfolding before_last smaller_size
  num_steps_to_draw n_steps duration =
      smaller_size (before_last n_steps) (to_size (over (ratio 2 1) duration))

  -- `ptg->getPathPose(k, i)` for so many steps from `i` on
  unfoldable pub path_points : (ℕ → Real × Real) → ℕ → ℕ → List (Real × Real)
  path_points pose i zero = []
  path_points pose i (suc n) = pose i ∷ path_points pose (suc i) n

  unfoldable pub line : String → Engine → ℕ → Real → Result (Option Marker)
  unfolding num_steps_to_draw path_points
  line frame e ptg direction =
      let k = alpha_index e ptg direction in
      assert (positive (step_duration e ptg))
      >> ok (
          some (record {
            frame_id = frame;
            points =
                path_points (path_pose e ptg k) 0
                  (num_steps_to_draw (step_count e ptg k) (step_duration e ptg));
          }))

  -- `none` is the empty array.
  unfoldable pub log_to_margers : String → Engine → LogRecord Real → Result (Option Marker)
  unfolding line
  log_to_margers frame e lr = elim lr.selected [
    | none ↦ ok none
    | some i ↦
        if (lr.n_ptgs == 0) || leb lr.n_ptgs i
        then ok none
        else or_throw (get_elem? lr.desired_direction i) out_of_range >>= λ d. line frame e i d
  ]
