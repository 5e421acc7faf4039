-- ===== src/Planner/Plan/Keeps.antt =====
-- What planning leaves alone.
use mrpt_navigation.Base.{◌≡◌, refl, Option-cases, Result-cases, Bool-cases, inl, inr}
use mrpt_navigation.Planner.Library.{Mpp, PlannerOutput}
use mrpt_navigation.Planner.Node.{Planner}
use mrpt_navigation.Planner.Plan.{gather_all, planner_input, plan_result, do_path_plan}

module _ (mpp : Mpp) where
  open mpp use {Pose2, NodeId, Edges, plan}

  plan_result-published :
      (start goal : Pose2) (n : Planner mpp) (out : PlannerOutput NodeId Edges)
      → (plan_result mpp start goal n out).0.published ≡ n.published
  unfolding plan_result
  plan_result-published start goal n out = elim (Option-cases out.best_node_id) [
    | inl none_best ↦ rw (none_best, plan_result) refl
    | inr (best, there) ↦ elim (Bool-cases out.success) [
      | inr failed ↦ rw (there, failed, plan_result) refl
      | inl succeeded ↦ rw (there, succeeded, plan_result) refl
    ]
  ]

  pub do_path_plan-published :
      (start goal : Pose2) (n : Planner mpp)
      → (do_path_plan mpp start goal n).0.published ≡ n.published
  unfolding do_path_plan
  do_path_plan-published start goal n = elim (Result-cases (gather_all mpp start goal n)) [
    | inr (e, missing) ↦ rw (missing, do_path_plan) refl
    | inl (g, gathered) ↦
        elim (Result-cases (plan g.cost_maps (planner_input mpp start goal n g))) [
          | inr (e, thrown) ↦ rw (gathered, thrown, do_path_plan) refl
          | inl (out, planned) ↦
              rw (gathered, planned, do_path_plan)
                (plan_result-published start goal (record n { cost_evaluators = g.cost_maps }) out)
        ]
  ]
