-- ===== src/Planner/Services/Starts.antt =====
-- Where the plans of the two services start.
use mrpt_navigation.Base.{Option, none, some, ◌≡◌, refl}
use mrpt_navigation.Planner.Library.{Mpp}
use mrpt_navigation.Planner.Node.{Planner}
use mrpt_navigation.Planner.Services.{Response, srv_make_plan_to, srv_make_plan_from_to}

module _ (mpp : Mpp) where
  open mpp use {Pose2, Pose3}

  -- Whatever start is asked for, the service that plans from one pose to another does what the
  -- service that plans from the robot's pose does.
  pub srv_make_plan_from_to-any_start :
      (start target : Pose2) (robot : Option Pose3) (resp : Response mpp) (n : Planner mpp)
      → srv_make_plan_from_to mpp start target robot resp n
        ≡ srv_make_plan_to mpp target robot resp n
  unfolding srv_make_plan_from_to srv_make_plan_to
  srv_make_plan_from_to-any_start start target none resp n = refl
  srv_make_plan_from_to-any_start start target (some robot) resp n = refl
