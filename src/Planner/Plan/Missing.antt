-- ===== src/Planner/Plan/Missing.antt =====
-- When planning meets a source of obstacles that no message has filled.
use mrpt_navigation.Base.{
  Bool, true, false, ◌&&◌, Option, none, some, List, [], ◌∷◌, Result, ok, err, null_pointer, ◌≡◌,
  refl, has_value, Option-cases, inl, inr, ◌>>=◌,
}
use mrpt_navigation.Planner.Library.{Mpp}
use mrpt_navigation.Planner.Node.{InfoPerGridMapSource, InfoPerPointMapSource, Planner}
use mrpt_navigation.Planner.Plan.{Gathered, gather, gather_gridmaps, gather_points, gather_all}

module _ (mpp : Mpp) where
  open mpp use {Pose2, Source, Points, CostMapParams, source_of, obstacles_of}

  abbrev pub grids_received : List (InfoPerGridMapSource mpp) → Bool
  grids_received [] = true
  grids_received (e ∷ es) = has_value e.grid_obstacles && grids_received es

  abbrev pub points_received : List (InfoPerPointMapSource mpp) → Bool
  points_received [] = true
  points_received (e ∷ es) = has_value e.obstacle_points && points_received es

  -- A message has come on every topic of obstacles.
  abbrev pub all_received : Planner mpp → Bool
  all_received n = grids_received n.gridmaps && points_received n.obstacle_points

  -- A source made of a point cloud has its points.
  abbrev pub KeepsPoints : Type 0
  KeepsPoints = (p : Points) → has_value (obstacles_of (source_of (some p))) ≡ true

  -- Gathered exactly if all is there, and null pointer otherwise.
  abbrev pub Tells : Bool → Result (Gathered mpp) → Type 0
  Tells true r = (g : Gathered mpp) × (r ≡ ok g)
  Tells false r = r ≡ err null_pointer

  gather-Tells :
      (params : CostMapParams) (start : Pose2) (source : Source) (boxed counted : Option Points)
      (g : Gathered mpp)
      → Tells
          (has_value boxed && has_value counted)
          (gather mpp params start source boxed counted g)
  unfolding gather
  gather-Tells params start source none counted g = refl
  gather-Tells params start source (some b) none g = refl
  gather-Tells params start source (some b) (some c) g = (_, refl)

  gather_gridmaps-Tells :
      (params : CostMapParams) (start : Pose2) (es : List (InfoPerGridMapSource mpp))
      (g : Gathered mpp)
      → Tells (grids_received es) (gather_gridmaps mpp params start es g)
  unfolding gather_gridmaps gather
  gather_gridmaps-Tells params start [] g = (g, refl)
  gather_gridmaps-Tells params start (e ∷ es) g = elim (Option-cases e.grid_obstacles) [
    | inl none_yet ↦ rw (none_yet, gather_gridmaps) refl
    | inr (p, there) ↦ rw (there, gather_gridmaps) (gather_gridmaps-Tells params start es _)
  ]

  gather_points-Tells :
      KeepsPoints
      → (params : CostMapParams) (start : Pose2) (es : List (InfoPerPointMapSource mpp))
        (g : Gathered mpp)
      → Tells (points_received es) (gather_points mpp params start es g)
  unfolding gather_points gather
  gather_points-Tells law params start [] g = (g, refl)
  gather_points-Tells law params start (e ∷ es) g = elim (Option-cases e.obstacle_points) [
    | inl none_yet ↦ elim (Option-cases (obstacles_of (source_of none))) [
      | inl nothing ↦ rw (none_yet, nothing, gather_points) refl
      | inr (q, some_points) ↦ rw (none_yet, some_points, gather_points) refl
    ]
    | inr (p, there) ↦ elim (Option-cases (obstacles_of (source_of (some p)))) [
      | inl nothing ↦ cc (rw (nothing) at (law p))
      | inr (q, kept) ↦ rw (there, kept, gather_points) (gather_points-Tells law params start es _)
    ]
  ]

  chain-Tells :
      (a b : Bool) (r : Result (Gathered mpp)) (f : Gathered mpp → Result (Gathered mpp))
      → Tells a r
      → ((g : Gathered mpp) → Tells b (f g))
      → Tells (a && b) (r >>= f)
  chain-Tells true b r f (g, e) rest = rw (e) (rest g)
  chain-Tells false b r f e rest = rw (e) refl

  pub gather_all-Tells :
      KeepsPoints
      → (start goal : Pose2) (n : Planner mpp)
      → Tells (all_received n) (gather_all mpp start goal n)
  unfolding gather_all
  gather_all-Tells law start goal n =
      chain-Tells (grids_received n.gridmaps) (points_received n.obstacle_points) _
        (gather_points mpp n.cost_map_params start n.obstacle_points)
        (gather_gridmaps-Tells n.cost_map_params start n.gridmaps _)
        (gather_points-Tells law n.cost_map_params start n.obstacle_points)
