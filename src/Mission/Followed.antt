-- ===== src/Mission/Followed.antt =====
-- What the navigation engine is told of a plan.
use Prim.Native.String.{String}
use mrpt_navigation.Base.{
  Bool, true, false, not, ◌&&◌, Option, none, some, List, [], ◌∷◌, ◌++◌, map, All, ok, ◌≡◌, sym, ap,
  subst, ◌∙◌, same_text, if◌then◌else◌,
}
use mrpt_navigation.Planner.Library.{Mpp}
use mrpt_navigation.Planner.Node.{Planner, Waypoint, WaypointMarks}
use mrpt_navigation.Planner.Plan.{PlanResult, do_path_plan}
use mrpt_navigation.Planner.Plan.Keeps.{do_path_plan-published}
use mrpt_navigation.Planner.Plan.Waypoints.{Promised, do_path_plan-Promised}
use mrpt_navigation.Planner.Services.{callback_goal, published}
use mrpt_navigation.Nav.Library as Nav
use mrpt_navigation.Nav.Node.{Node, engine_call}
use mrpt_navigation.Nav.Commands.{waypoint_of, on_waypoint_seq_received}
use mrpt_navigation.Nav.Commands.Waypoints.{on_waypoint_seq_received-home}
use mrpt_navigation.Mission.{Link, waypoint_msg, sequence_of, deliver, mission}

module _ (mpp : Mpp) (mrpt : Nav.Mrpt) (link : Link mpp mrpt) where
  open mpp use {Pose2, x2, y2, pose2}
  open mrpt use {Real, identity3, compose, is_nan, yaw, navigate_waypoints}
  open link use {real_of, pose_of}

  -- A pose of the plan as the engine gets it.
  pub engine_waypoint : WaypointMarks mpp → Pose2 → Nav.Waypoint Real
  engine_waypoint marks p = record {
    x = real_of (x2 p);
    y = real_of (y2 p);
    allowed_distance = real_of marks.allowed_distance;
    allow_skip = marks.allow_skip;
    target_heading =
        if not (is_nan (yaw (pose_of p))) && not marks.ignore_heading
        then some (yaw (pose_of p))
        else none;
  }

  -- Poses keep their coordinates on the way, and the identity moves nothing.
  pub record LinkLaws : Type 0 where
    pub identity_left : (p : mrpt.Pose3) → compose identity3 p ≡ p
    pub keeps_x : (p : Pose2) → mrpt.x (pose_of p) ≡ real_of (x2 p)
    pub keeps_y : (p : Pose2) → mrpt.y (pose_of p) ≡ real_of (y2 p)

  module _ (laws : LinkLaws) where
    waypoint_arrives :
        (w : Waypoint mpp)
        → waypoint_of mrpt identity3 (waypoint_msg mpp mrpt link w)
          ≡ engine_waypoint w.marks w.target
    unfolding waypoint_of waypoint_msg engine_waypoint
    waypoint_arrives w =
        simp (laws.identity_left (pose_of w.target), laws.keeps_x w.target, laws.keeps_y w.target)

    middle_arrives :
        (m : WaypointMarks mpp) (ws : List (Waypoint mpp)) (last : Waypoint mpp)
        → All (λ (w : Waypoint mpp). w.marks ≡ m) ws
        → map (waypoint_of mrpt identity3) (map (waypoint_msg mpp mrpt link) (ws ++ last ∷ []))
          ≡ map (engine_waypoint m) (map (λ w. w.target) ws)
            ++ engine_waypoint last.marks last.target ∷ []
    middle_arrives m [] last h = ap (λ w. w ∷ []) (waypoint_arrives last)
    middle_arrives m (w ∷ ws) last (marks, h) = λ i.
        (waypoint_arrives w ∙ ap (λ k. engine_waypoint k w.target) marks) i
        ∷ middle_arrives m ws last h i

    valid_plan :
        (p : Planner mpp) (goal : Pose2) (res : PlanResult mpp)
        → res.valid ≡ true
        → Promised mpp (record p { published = [] }) goal res
        → (mid : List (Waypoint mpp)) × (res.wps
            ≡ mid ++ record { target = goal; marks = p.final_waypoint } ∷ [])
          × All (λ w. w.marks ≡ p.mid_waypoints) mid
    valid_plan p goal res valid promised =
        subst
          (λ (b : Bool). elim b as (λ x. Type 0) [
            | false ↦ res.wps ≡ []
            | true ↦
                (mid : List (Waypoint mpp)) × (res.wps
                  ≡ mid ++ record { target = goal; marks = p.final_waypoint } ∷ [])
                × All (λ w. w.marks ≡ p.mid_waypoints) mid
          ])
          valid promised

    module _ (frame : String) (tf : Option mrpt.Pose3) (n : Node mrpt) where
      delivered :
          (valid : Bool) (wps : List (Waypoint mpp)) (p : Planner mpp)
          → p.published ≡ []
          → deliver mpp mrpt link frame tf
              (if valid then record p { published = p.published ++ wps ∷ [] } else p).published
              n
            ≡ (if valid
                then on_waypoint_seq_received mrpt (sequence_of mpp mrpt link frame wps) tf n
                else n)
      unfolding deliver
      delivered true wps p e = ap (λ l. deliver mpp mrpt link frame tf (l ++ wps ∷ []) n) e
      delivered false wps p e = ap (λ l. deliver mpp mrpt link frame tf l n) e

      mission-eq :
          (goal : Pose2) (robot : mpp.Pose3) (p : Planner mpp) {p' : Planner mpp}
          {res : PlanResult mpp}
          → do_path_plan mpp
              (pose2 (mpp.x robot) (mpp.y robot) (mpp.yaw robot))
              goal
              (record p { published = [] })
            ≡ (p', ok res)
          → let (_, n', outcome) = mission mpp mrpt link frame goal (some robot) tf p n in
            (outcome ≡ ok tt)
            × (n' ≡ (
                if res.valid
                then on_waypoint_seq_received mrpt (sequence_of mpp mrpt link frame res.wps) tf n
                else n))
      unfolding mission callback_goal published
      mission-eq goal robot p {p'} {res} planned =
          let start = pose2 (mpp.x robot) (mpp.y robot) (mpp.yaw robot) in
          let unheard : p'.published ≡ [] =
            ap (λ o. o.0.published) (sym planned)
            ∙ do_path_plan-published mpp start goal (record p { published = [] }) in
          (
            ap (λ o. (published mpp o).1) planned,
            ap (λ o. deliver mpp mrpt link frame tf (published mpp o).0.published n) planned
                ∙ delivered res.valid res.wps p' unheard,
          )

      followed :
          (goal : Pose2) (p : Planner mpp) (res : PlanResult mpp) {n' : Node mrpt}
          → res.valid ≡ true
          → same_text frame n.frame_reference ≡ true
          → Promised mpp (record p { published = [] }) goal res
          → n' ≡ (
              if res.valid
              then on_waypoint_seq_received mrpt (sequence_of mpp mrpt link frame res.wps) tf n
              else n)
          → (poses : List Pose2) × (n'
              ≡ engine_call mrpt
                  (navigate_waypoints n.rnav_engine (
                    map (engine_waypoint p.mid_waypoints) poses
                    ++ engine_waypoint p.final_waypoint goal ∷ []))
                  (record n { current_nav_ended_successfully = none }))
      unfolding sequence_of
      followed goal p res valid home promised told =
          let (mid, ends, marks) = valid_plan p goal res valid promised in
          let tell = λ (wps : List (Nav.Waypoint Real)).
            engine_call mrpt (navigate_waypoints n.rnav_engine wps)
              (record n { current_nav_ended_successfully = none }) in
          (
            map (λ w. w.target) mid,
            told
                ∙ ap
                    (λ (b : Bool).
                      if b
                      then on_waypoint_seq_received mrpt (sequence_of mpp mrpt link frame res.wps)
                          tf n
                      else n)
                    valid
                ∙ on_waypoint_seq_received-home mrpt (sequence_of mpp mrpt link frame res.wps) tf n
                    home
                ∙ ap
                    (λ (wps : List (Waypoint mpp)).
                      tell
                        (map (waypoint_of mrpt identity3) (map (waypoint_msg mpp mrpt link) wps)))
                    ends
                ∙ ap tell (middle_arrives p.mid_waypoints mid _ marks),
          )

      -- A planner that is asked for a plan to a goal, with the pose of the robot known and its map's
      -- frame the frame of reference of the navigation node. If planning returns a valid plan, the
      -- engine is told to go through poses with the marks of middle waypoints, and then to the goal
      -- itself with those of the final one, and no earlier navigation's end stands for this one's. If
      -- the plan is not valid the navigation node is told nothing.
      pub mission-followed :
          (goal : Pose2) (robot : mpp.Pose3) (p : Planner mpp) {p' : Planner mpp}
          {res : PlanResult mpp}
          → same_text frame n.frame_reference ≡ true
          → do_path_plan mpp
              (pose2 (mpp.x robot) (mpp.y robot) (mpp.yaw robot))
              goal
              (record p { published = [] })
            ≡ (p', ok res)
          → let (_, n', outcome) = mission mpp mrpt link frame goal (some robot) tf p n in
            (outcome ≡ ok tt)
            × (res.valid ≡ false → n' ≡ n)
            × (res.valid ≡ true
                → (poses : List Pose2) × (n'
                    ≡ engine_call mrpt
                        (navigate_waypoints n.rnav_engine (
                          map (engine_waypoint p.mid_waypoints) poses
                          ++ engine_waypoint p.final_waypoint goal ∷ []))
                        (record n { current_nav_ended_successfully = none })))
      mission-followed goal robot p {p'} {res} home planned =
          let start = pose2 (mpp.x robot) (mpp.y robot) (mpp.yaw robot) in
          let (ended, told) = mission-eq goal robot p planned in
          (
            ended,
            λ invalid.
                told
                ∙ ap
                    (λ (b : Bool).
                      if b
                      then on_waypoint_seq_received mrpt (sequence_of mpp mrpt link frame res.wps)
                          tf n
                      else n)
                    invalid,
            λ valid.
                followed goal p res valid home
                  (do_path_plan-Promised mpp start goal (record p { published = [] })
                    (ap (λ o. o.1) planned))
                  told,
          )
