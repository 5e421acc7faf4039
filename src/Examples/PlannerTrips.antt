-- ===== src/Examples/PlannerTrips.antt =====
-- The planner node with a planner that finds one path, and with a topic that has had no message.
use mrpt_navigation.Base.{
  ℕ, Bool, true, false, none, some, [], ◌∷◌, ok, err, null_pointer, ◌≡◌, ◌↔◌, refl, ◌+◌, ltb,
  if◌then◌else◌, ◌≤◌, arith,
}
use mrpt_navigation.Planner.Library.{Mpp}
use mrpt_navigation.Planner.Node.{WaypointMarks, Planner}
use mrpt_navigation.Planner.Plan.{
  PlanResult, Gathered, gather, first_box, gather_gridmaps, gather_points, gather_all,
  planner_input, plan_result, do_path_plan, waypoints,
}
use mrpt_navigation.Planner.Plan.Covers.{Point, BoxLaws, Covers, planner_input-Covers}
use mrpt_navigation.Planner.Plan.Missing.{all_received}
use mrpt_navigation.Planner.Plan.Waypoints.{Promised, do_path_plan-Promised}
use mrpt_navigation.Planner.Services.{Response, srv_make_plan_to, srv_make_plan_from_to}
use mrpt_navigation.Planner.Services.Crash.{NoNull, srv_make_plan_to-null_iff}
use mrpt_navigation.Planner.Services.Starts.{srv_make_plan_from_to-any_start}
use mrpt_navigation.Examples.Toy.{Triple, numbers}

-- Boxes know their largest x alone, and point maps are their boxes.
abbrev pub mpp : Mpp
mpp = record {
  double = numbers;
  Pose2 = Triple;
  pose2 = λ a b c. (a, b, c);
  x2 = λ p. p.0;
  y2 = λ p. p.1;
  compose2 = λ p q. (p.0 + q.0, p.1 + q.1, p.2 + q.2);
  Pose3 = Triple;
  x = λ p. p.0;
  y = λ p. p.1;
  yaw = λ p. p.2;
  flatten = λ p. p;
  Box = ℕ;
  plus_minus_infinity = 0;
  update_with_point = λ b p. if ltb b p.0 then p.0 else b;
  union_with = λ a b. if ltb a b then b else a;
  min_x = λ b. 0;
  min_y = λ b. 0;
  max_x = λ b. b;
  max_y = λ b. b;
  Points = ℕ;
  bounding_box = λ p. p;
  move = λ p m. m;
  Grid = ℕ;
  as_points = λ g. g;
  GridMsg = ℕ;
  grid_of = λ m. m;
  CloudMsg = ℕ;
  points_of = λ m. m;
  Ptgs = Unit;
  Source = ℕ;
  source_of = λ p. elim p [ none ↦ 0 | some m ↦ m ];
  obstacles_of = λ s. some s;
  CostMapParams = Unit;
  CostMap = ℕ;
  cost_map_of = λ p c s. p;
  NodeId = ℕ;
  Edges = ℕ;
  plan = λ maps i. ok (record { success = true; best_node_id = some 7; backtrack_path = λ n. n });
  to_trajectory = λ e p t. ok ((e, 0, 0) ∷ (e + 1, 0, 0) ∷ []);
}

abbrev pub marks : Bool → WaypointMarks mpp
marks skip = record { allowed_distance = 1; allow_skip = skip; ignore_heading = false }

abbrev pub ready : Planner mpp
ready = record {
  gridmaps = record { grid = some 4; grid_obstacles = some 4 } ∷ [];
  obstacle_points = record { obstacle_points = some 6 } ∷ [];
  ptgs = tt;
  cost_map_params = tt;
  cost_evaluators = [];
  mid_waypoints = marks true;
  final_waypoint = marks false;
  published = [];
}

abbrev deaf : Planner mpp
deaf = record ready { obstacle_points = record { obstacle_points = none } ∷ [] }

abbrev pub here : Triple
here = (1, 2, 0)

abbrev pub there : Triple
there = (9, 9, 0)

abbrev blank : Response mpp
blank = record { valid_path_found = false; waypoints = [] }

abbrev pub found : PlanResult mpp
found = record { valid = true; wps = waypoints mpp ready here there ((7, 0, 0) ∷ (8, 0, 0) ∷ []) }

do_path_plan-Promised_example : Promised mpp ready there found
unfolding do_path_plan gather_all gather_gridmaps gather_points planner_input plan_result
do_path_plan-Promised_example = do_path_plan-Promised mpp here there ready {res = found} refl

pub no_null : NoNull mpp
no_null = record { in_plan = λ maps i e. cc; in_trajectory = λ e p t h. cc }

srv_make_plan_to-null_iff_example :
    ((srv_make_plan_to mpp there (some here) blank deaf).2 ≡ err null_pointer)
    ↔ (all_received mpp deaf ≡ false)
srv_make_plan_to-null_iff_example =
    srv_make_plan_to-null_iff mpp no_null (λ p. refl) there here blank deaf

srv_make_plan_from_to-any_start_example :
    srv_make_plan_from_to mpp (5, 5, 0) there (some here) blank ready
    ≡ srv_make_plan_to mpp there (some here) blank ready
srv_make_plan_from_to-any_start_example =
    srv_make_plan_from_to-any_start mpp (5, 5, 0) there (some here) blank ready

abbrev BelowX : Point mpp → ℕ → Type 0
BelowX p b = p.0 ≤ b

below_laws : BoxLaws mpp BelowX
below_laws = record {
  updated = λ b p. ground arith;
  kept = λ b p q h. ground arith;
  left = λ a b q h. ground arith;
  right = λ a b q h. ground arith;
}

abbrev gathered : Gathered mpp
gathered = record { obstacles = 4 ∷ 6 ∷ []; bbox = 9; cost_maps = 4 ∷ 6 ∷ [] }

planner_input-Covers_example :
    (w : ℕ) × ((planner_input mpp here there ready gathered).world_min ≡ (0, 0, 0))
    × ((planner_input mpp here there ready gathered).world_max ≡ (w, w, 3))
    × Covers mpp BelowX ready here there w
unfolding gather_all gather_gridmaps gather_points gather first_box
planner_input-Covers_example =
    planner_input-Covers mpp BelowX below_laws here there ready {g = gathered} refl
