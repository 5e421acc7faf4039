-- ===== src/Planner/Services/Crash.antt =====
-- When the services of the planner end the process.
use mrpt_navigation.Base.{
  Bool, true, false, Exception, some, List, Result, ok, err, null_pointer, ◌≡◌, ◌≢◌, ◌↔◌, ◌∙◌, ap,
  refl, Result-cases, Option-cases, Bool-cases, inl, inr,
}
use mrpt_navigation.Planner.Library.{Mpp, PlannerInput, PlannerOutput}
use mrpt_navigation.Planner.Node.{Planner}
use mrpt_navigation.Planner.Plan.{
  Gathered, PlanResult, gather_all, plan_result, planner_input, do_path_plan,
}
use mrpt_navigation.Planner.Plan.Missing.{all_received, KeepsPoints, Tells, gather_all-Tells}
use mrpt_navigation.Planner.Services.{Response, caught, answered, srv_make_plan_to}

module _ (mpp : Mpp) where
  open mpp use {
    double, Pose2, Pose3, Ptgs, Source, CostMap, NodeId, Edges, plan, to_trajectory, flatten,
  }
  open double use {Real, ratio}

  -- The planner's library dereferences no null pointer.
  pub record NoNull : Type 0 where
    pub in_plan :
        (maps : List CostMap) (i : PlannerInput Real Pose2 Ptgs Source)
        → plan maps i ≢ err null_pointer
    pub in_trajectory :
        (edges : Edges) (ptgs : Ptgs) (period : Real)
        → to_trajectory edges ptgs period ≢ err null_pointer

  plan_result-no_null :
      NoNull
      → (start goal : Pose2) (n : Planner mpp) (out : PlannerOutput NodeId Edges)
      → (plan_result mpp start goal n out).1 ≢ err null_pointer
  unfolding plan_result
  plan_result-no_null laws start goal n out h = elim (Option-cases out.best_node_id) [
    | inl none_best ↦ cc (rw (none_best, plan_result) at h)
    | inr (best, there) ↦ elim (Bool-cases out.success) [
      | inr failed ↦ cc (rw (there, failed, plan_result) at h)
      | inl succeeded ↦
          let trajectory = to_trajectory (out.backtrack_path best) n.ptgs (ratio 1 4) in
          elim (Result-cases trajectory) [
            | inl (path, done) ↦ cc (rw (there, succeeded, done, plan_result) at h)
            | inr (e, thrown) ↦
                let null : e ≡ null_pointer =
                  cc (rw (there, succeeded, thrown, plan_result) at h) in
                laws.in_trajectory _ _ _ (thrown ∙ ap err null)
          ]
    ]
  ]

  do_path_plan-no_null :
      NoNull
      → (start goal : Pose2) (n : Planner mpp) {g : Gathered mpp}
      → gather_all mpp start goal n ≡ ok g
      → (do_path_plan mpp start goal n).1 ≢ err null_pointer
  unfolding do_path_plan
  do_path_plan-no_null laws start goal n {g} gathered h =
      let input = planner_input mpp start goal n g in
      elim (Result-cases (plan g.cost_maps input)) [
        | inl (out, planned) ↦
            plan_result-no_null laws start goal (record n { cost_evaluators = g.cost_maps }) out
              (rw (gathered, planned, do_path_plan) at h)
        | inr (e, thrown) ↦
            let null : e ≡ null_pointer = cc (rw (gathered, thrown, do_path_plan) at h) in
            laws.in_plan _ _ (thrown ∙ ap err null)
      ]

  do_path_plan-null_iff :
      NoNull
      → (start goal : Pose2) (n : Planner mpp) (received : Bool)
      → Tells mpp received (gather_all mpp start goal n)
      → ((do_path_plan mpp start goal n).1 ≡ err null_pointer) ↔ (received ≡ false)
  unfolding do_path_plan
  do_path_plan-null_iff laws start goal n false e = (λ h. refl, λ h. rw (e, do_path_plan) refl)
  do_path_plan-null_iff laws start goal n true (g, e) =
      (λ h. elim (do_path_plan-no_null laws start goal n e h) [ ], λ h. cc)

  caught-null_iff : (e : Exception) → (caught mpp e ≡ err null_pointer) ↔ (e ≡ null_pointer)
  unfolding caught
  caught-null_iff null_pointer = (λ h. refl, λ h. refl)
  caught-null_iff _ = (λ h. cc, λ h. cc)

  answered-null_iff :
      (resp : Response mpp) (o : Planner mpp × Result (PlanResult mpp))
      → ((answered mpp resp o).2 ≡ err null_pointer) ↔ (o.1 ≡ err null_pointer)
  unfolding answered
  answered-null_iff resp (n, ok res) = (λ h. cc, λ h. cc)
  answered-null_iff resp (n, err e) =
      (λ h. ap err ((caught-null_iff e).0 h), λ h. (caught-null_iff e).1 (cc h))

  -- With the pose of the robot known, the service ends the process by a null pointer exactly if
  -- some subscribed topic of obstacles has not had a message yet, where the planner's library
  -- dereferences none and a source made of points keeps them.
  pub srv_make_plan_to-null_iff :
      NoNull
      → KeepsPoints mpp
      → (target : Pose2) (robot : Pose3) (resp : Response mpp) (n : Planner mpp)
      → ((srv_make_plan_to mpp target (some robot) resp n).2 ≡ err null_pointer)
        ↔ (all_received mpp n ≡ false)
  unfolding srv_make_plan_to
  srv_make_plan_to-null_iff laws law target robot resp n =
      let planned = do_path_plan mpp (flatten robot) target n in
      let through = answered-null_iff resp planned in
      let missing =
        do_path_plan-null_iff laws (flatten robot) target n (all_received mpp n)
          (gather_all-Tells mpp law (flatten robot) target n) in
      (λ h. missing.0 (through.0 h), λ h. through.1 (missing.1 h))
