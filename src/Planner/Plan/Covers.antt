-- ===== src/Planner/Plan/Covers.antt =====
-- The world in which a plan is searched has room for its ends and for all obstacles.
use mrpt_navigation.Base.{
  Option, some, List, [], ◌∷◌, All, All-mono, ok, ◌≡◌, refl, subst, Result-cases, Option-cases, inl,
  inr,
}
use mrpt_navigation.Planner.Library.{Mpp}
use mrpt_navigation.Planner.Node.{InfoPerGridMapSource, InfoPerPointMapSource, Planner}
use mrpt_navigation.Planner.Plan.{
  Gathered, gather, gather_gridmaps, gather_points, gather_all, first_box, with_margins,
  planner_input, minus_margin, plus_margin,
}

module _ (mpp : Mpp) where
  open mpp use {
    double, Pose2, Box, Points, CostMapParams, bounding_box, update_with_point, union_with,
    source_of, obstacles_of, min_x, min_y, max_x, max_y,
  }
  open double use {Real, negate, pi}

  abbrev pub Point : Type 0
  Point = Real × Real × Real

  -- `TBoundingBox`: a point is in the box that was updated with it, and no update or union loses a
  -- point.
  pub record BoxLaws (Within : Point → Box → Type 0) : Type 0 where
    pub updated : (b : Box) (p : Point) → Within p (update_with_point b p)
    pub kept : (b : Box) (p q : Point) → Within q b → Within q (update_with_point b p)
    pub left : (a b : Box) (q : Point) → Within q a → Within q (union_with a b)
    pub right : (a b : Box) (q : Point) → Within q b → Within q (union_with a b)

  module _ (Within : Point → Box → Type 0) where
    abbrev pub Includes : Box → Option Points → Type 0
    Includes w ps =
        (p : Points) → ps ≡ some p → (q : Point) → Within q (bounding_box p) → Within q w

    -- A box has the obstacles of every topic, and squares of 2 m around the start and the goal.
    pub record Covers (n : Planner mpp) (start goal : Pose2) (w : Box) : Type 0 where
      pub grids : All (λ e. Includes w e.grid_obstacles) n.gridmaps
      pub clouds :
          All (λ e. Includes w (obstacles_of (source_of e.obstacle_points))) n.obstacle_points
      pub start_low : Within (minus_margin mpp start) w
      pub start_high : Within (plus_margin mpp start) w
      pub goal_low : Within (minus_margin mpp goal) w
      pub goal_high : Within (plus_margin mpp goal) w

    module _ (laws : BoxLaws Within) where
      included :
          (a : Box) {w : Box} (o : Option Points) (p : Points)
          → o ≡ some p
          → ((q : Point) → Within q (union_with a (bounding_box p)) → Within q w)
          → Includes w o
      included a o p there grow p' there' q inside =
          let same : p' ≡ p = cc in
          grow q
            (laws.right a (bounding_box p) q (subst (λ x. Within q (bounding_box x)) same inside))

      gather_gridmaps-Includes :
          (params : CostMapParams) (start : Pose2) (es : List (InfoPerGridMapSource mpp))
          (g : Gathered mpp) {g' : Gathered mpp}
          → gather_gridmaps mpp params start es g ≡ ok g'
          → ((q : Point) → Within q g.bbox → Within q g'.bbox)
            × All (λ e. Includes g'.bbox e.grid_obstacles) es
      unfolding gather_gridmaps gather
      gather_gridmaps-Includes params start [] g {g'} h =
          let same : g ≡ g' = cc in (λ q inside. subst (λ x. Within q x.bbox) same inside, tt)
      gather_gridmaps-Includes params start (e ∷ es) g h = elim (Option-cases e.grid_obstacles) [
        | inl none_yet ↦ cc (rw (none_yet, gather_gridmaps) at h)
        | inr (p, there) ↦
            let (grow, rest) =
              gather_gridmaps-Includes params start es _ (rw (there, gather_gridmaps) at h) in
            (
              λ q inside. grow q (laws.left g.bbox (bounding_box p) q inside),
              (included g.bbox e.grid_obstacles p there grow, rest),
            )
      ]

      gather_points-Includes :
          (params : CostMapParams) (start : Pose2) (es : List (InfoPerPointMapSource mpp))
          (g : Gathered mpp) {g' : Gathered mpp}
          → gather_points mpp params start es g ≡ ok g'
          → ((q : Point) → Within q g.bbox → Within q g'.bbox)
            × All (λ e. Includes g'.bbox (obstacles_of (source_of e.obstacle_points))) es
      unfolding gather_points gather
      gather_points-Includes params start [] g {g'} h =
          let same : g ≡ g' = cc in (λ q inside. subst (λ x. Within q x.bbox) same inside, tt)
      gather_points-Includes params start (e ∷ es) g h =
          let boxed = obstacles_of (source_of e.obstacle_points) in
          elim (Option-cases boxed) [
            | inl no_points ↦ cc (rw (no_points, gather_points) at h)
            | inr (p, there) ↦ elim (Option-cases e.obstacle_points) [
              | inl none_yet ↦ cc (rw (there, none_yet, gather_points) at h)
              | inr (c, counted) ↦
                  let (grow, rest) =
                    gather_points-Includes params start es _
                      (rw (there, counted, gather_points) at h) in
                  (
                    λ q inside. grow q (laws.left g.bbox (bounding_box p) q inside),
                    (included g.bbox boxed p there grow, rest),
                  )
            ]
          ]

      with_margins-keeps :
          (start goal : Pose2) (b : Box) (q : Point)
          → Within q b
          → Within q (with_margins mpp start goal b)
      unfolding with_margins
      with_margins-keeps start goal b q inside =
          laws.kept _ _ q (laws.kept _ _ q (laws.kept _ _ q (laws.kept _ _ q inside)))

      Includes-more :
          {b w : Box} (o : Option Points)
          → ((q : Point) → Within q b → Within q w)
          → Includes b o
          → Includes w o
      Includes-more o grow inside p there q here = grow q (inside p there q here)

      with_margins-Covers :
          (n : Planner mpp) (start goal : Pose2) (b : Box)
          → All (λ e. Includes b e.grid_obstacles) n.gridmaps
          → All (λ e. Includes b (obstacles_of (source_of e.obstacle_points))) n.obstacle_points
          → Covers n start goal (with_margins mpp start goal b)
      unfolding with_margins
      with_margins-Covers n start goal b grids clouds = record {
        grids =
            All-mono (λ e. Includes-more e.grid_obstacles (with_margins-keeps start goal b))
              n.gridmaps grids;
        clouds =
            All-mono
              (λ e.
                Includes-more (obstacles_of (source_of e.obstacle_points))
                  (with_margins-keeps start goal b))
              n.obstacle_points clouds;
        start_low = laws.kept _ _ _ (laws.kept _ _ _ (laws.kept _ _ _ (laws.updated _ _)));
        start_high = laws.kept _ _ _ (laws.kept _ _ _ (laws.updated _ _));
        goal_low = laws.kept _ _ _ (laws.updated _ _);
        goal_high = laws.updated _ _;
      }

      -- If every source is there, the input of the planner bounds its world by a box with the
      -- obstacles of all topics and the squares of 2 m around the start and the goal, for boxes
      -- that behave as documented.
      pub planner_input-Covers :
          (start goal : Pose2) (n : Planner mpp) {g : Gathered mpp}
          → gather_all mpp start goal n ≡ ok g
          → (w : Box) × ((planner_input mpp start goal n g).world_min
              ≡ (min_x w, min_y w, negate pi))
            × ((planner_input mpp start goal n g).world_max ≡ (max_x w, max_y w, pi))
            × Covers n start goal w
      unfolding gather_all planner_input
      planner_input-Covers start goal n {g} h =
          let params = n.cost_map_params in
          let empty : Gathered mpp = record {
            obstacles = [];
            bbox = first_box mpp start goal;
            cost_maps = [];
          } in
          elim (Result-cases (gather_gridmaps mpp params start n.gridmaps empty)) [
            | inr (e, missing) ↦ cc (rw (missing, gather_all) at h)
            | inl (mid, done) ↦
                let (stays, grids) = gather_gridmaps-Includes params start n.gridmaps empty done in
                let (grow, clouds) =
                  gather_points-Includes params start n.obstacle_points mid
                    (rw (done, gather_all) at h) in
                let grown = All-mono (λ e. Includes-more e.grid_obstacles grow) n.gridmaps grids in
                (
                  with_margins mpp start goal g.bbox,
                  refl,
                  refl,
                  with_margins-Covers n start goal g.bbox grown clouds,
                )
          ]
