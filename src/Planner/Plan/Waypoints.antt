-- ===== src/Planner/Plan/Waypoints.antt =====
-- The waypoints of a plan.
use mrpt_navigation.Base.{
  true, false, List, [], ◌∷◌, ◌++◌, map, All, ok, ◌≡◌, refl, subst, Result-cases, Option-cases,
  Bool-cases, inl, inr,
}
use mrpt_navigation.Planner.Library.{Mpp, PlannerOutput}
use mrpt_navigation.Planner.Node.{Waypoint, WaypointMarks, Planner}
use mrpt_navigation.Planner.Plan.{
  PlanResult, gather_all, planner_input, waypoints, plan_result, do_path_plan, no_plan,
}

module _ (mpp : Mpp) where
  open mpp use {Pose2, NodeId, Edges, plan, to_trajectory, compose2, double}
  open double use {ratio}

  -- What a client may rely on: a valid plan ends at the goal, with the final waypoint's marks, all
  -- waypoints before it having the others, and a plan that is not valid has no waypoints.
  abbrev pub Promised : Planner mpp → Pose2 → PlanResult mpp → Type 0
  Promised n goal res = elim res.valid [
    | false ↦ res.wps ≡ []
    | true ↦
        (mid : List (Waypoint mpp)) × (res.wps
          ≡ mid ++ record { target = goal; marks = n.final_waypoint } ∷ [])
        × All (λ w. w.marks ≡ n.mid_waypoints) mid
  ]

  marked :
      (m : WaypointMarks mpp) (f : Pose2 → Pose2) (path : List Pose2)
      → All (λ (w : Waypoint mpp). w.marks ≡ m) (map (λ p. record { target = f p; marks = m }) path)
  marked m f [] = tt
  marked m f (p ∷ path) = (refl, marked m f path)

  plan_result-Promised :
      (start goal : Pose2) (n : Planner mpp) (out : PlannerOutput NodeId Edges)
      {res : PlanResult mpp}
      → (plan_result mpp start goal n out).1 ≡ ok res
      → Promised n goal res
  unfolding plan_result waypoints
  plan_result-Promised start goal n out {res} h = elim (Option-cases out.best_node_id) [
    | inl none_best ↦
        let same : no_plan mpp ≡ res = cc (rw (none_best, plan_result) at h) in
        subst (Promised n goal) same refl
    | inr (best, there) ↦ elim (Bool-cases out.success) [
      | inr failed ↦
          let same : no_plan mpp ≡ res = cc (rw (there, failed, plan_result) at h) in
          subst (Promised n goal) same refl
      | inl succeeded ↦
          let trajectory = to_trajectory (out.backtrack_path best) n.ptgs (ratio 1 4) in
          elim (Result-cases trajectory) [
            | inr (e, thrown) ↦ cc (rw (there, succeeded, thrown, plan_result) at h)
            | inl (path, done) ↦
                let good : PlanResult mpp = record {
                  valid = true;
                  wps = waypoints mpp n start goal path;
                } in
                let same : good ≡ res = cc (rw (there, succeeded, done, plan_result) at h) in
                subst (Promised n goal) same (_, refl, marked n.mid_waypoints (compose2 start) path)
          ]
    ]
  ]

  -- What planning returns, if it returns: a plan from the start as the client is promised, for
  -- any planner of mrpt_path_planning.
  pub do_path_plan-Promised :
      (start goal : Pose2) (n : Planner mpp) {res : PlanResult mpp}
      → (do_path_plan mpp start goal n).1 ≡ ok res
      → Promised n goal res
  unfolding do_path_plan
  do_path_plan-Promised start goal n h = elim (Result-cases (gather_all mpp start goal n)) [
    | inr (e, missing) ↦ cc (rw (missing, do_path_plan) at h)
    | inl (g, gathered) ↦
        let input = planner_input mpp start goal n g in
        elim (Result-cases (plan g.cost_maps input)) [
          | inr (e, thrown) ↦ cc (rw (gathered, thrown, do_path_plan) at h)
          | inl (out, planned) ↦
              plan_result-Promised start goal (record n { cost_evaluators = g.cost_maps }) out
                (rw (gathered, planned, do_path_plan) at h)
        ]
  ]
