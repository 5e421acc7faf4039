-- ===== src/Examples/MissionTrip.antt =====
-- A goal that is planned and followed, in the worlds of the planner's and of the navigation's
-- examples.
use mrpt_navigation.Base.{true, false, none, some, List, [], ◌∷◌, ◌++◌, map, ok, ◌≡◌, refl, arith}
use mrpt_navigation.Planner.Plan.{
  do_path_plan, gather_all, gather_gridmaps, gather_points, planner_input, plan_result,
}
use mrpt_navigation.Planner.Node.{Planner}
use mrpt_navigation.Nav.Node.{engine_call}
use mrpt_navigation.Mission.{Link, mission}
use mrpt_navigation.Mission.Followed.{LinkLaws, engine_waypoint, mission-followed}
use mrpt_navigation.Examples.Toy.{Triple}
use mrpt_navigation.Examples.PlannerTrips.{mpp, ready, found, here, there}
use mrpt_navigation.Examples.NavStates.{world, robot}

abbrev link : Link mpp world
link = record { real_of = λ a. a; pose_of = λ p. p }

zero_left : (p : Triple) → world.compose world.identity3 p ≡ p
zero_left p = ground arith

laws : LinkLaws mpp world link
laws = record { identity_left = zero_left; keeps_x = λ p. refl; keeps_y = λ p. refl }

abbrev planned : Planner mpp
planned = record ready { cost_evaluators = 4 ∷ 6 ∷ [] }

mission-followed_example :
    let (_, n', outcome) = mission mpp world link "map" there (some here) none ready robot in
    (outcome ≡ ok tt)
    × (found.valid ≡ false → n' ≡ robot)
    × (found.valid ≡ true
        → (poses : List Triple) × (n'
            ≡ engine_call world
                (world.navigate_waypoints robot.rnav_engine (
                  map (engine_waypoint mpp world link ready.mid_waypoints) poses
                  ++ engine_waypoint mpp world link ready.final_waypoint there ∷ []))
                (record robot { current_nav_ended_successfully = none })))
unfolding do_path_plan gather_all gather_gridmaps gather_points planner_input plan_result
mission-followed_example =
    mission-followed mpp world link laws "map" none robot there here ready {p' = planned}
      {res = found} refl refl
