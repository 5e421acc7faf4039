-- ===== src/Examples/PfWindow.antt =====
-- The debug window of the localization core over three updates, the last of another kind.
use mrpt_navigation.Base.{
  ℕ, ◌+◌, ◌*◌, true, false, none, some, List, [], ◌∷◌, ◌++◌, length, ok, err, null_pointer, ◌≡◌,
  ◌↔◌, refl, map_ok,
}
use mrpt_navigation.Pf.State.{Core, new_state}
use mrpt_navigation.Pf.Scene.{get_by_name, change_object, insert_object, remove_object}
use mrpt_navigation.Pf.Estimate.{Graphics, Estimate, estimated_pose}
use mrpt_navigation.Pf.Window.{Gui, particles2, ellipsoid2, point_cloud, update_gui}
use mrpt_navigation.Pf.Window.Updated.{Displays}
use mrpt_navigation.Pf.Window.Shown.{Update, update_all, all_of_kind, update_all-shown}
use mrpt_navigation.Examples.Toy.{toy, Reading}
use mrpt_navigation.Examples.PfStates.{parameters}

-- The mean is the first particle, the covariance has its position in it, and the points of a frame
-- are the stamps of its observations.
abbrev drawing : Graphics toy
drawing = record {
  has_wxwidgets = true;
  is_valid = λ t. true;
  covariance_and_mean2 = λ ps. (λ i j. 10 * i + j, (1, 2, 3));
  covariance_and_mean3 = λ ps. (λ i j. i + j, ((4, 5, 6), (0, 0, 0)));
  Points = ℕ;
  no_points = 0;
  points_of_frame = length;
}

abbrev shut : Gui toy drawing
shut = record { win3d = none; last_map = 0 }

abbrev planar : Core toy
planar = record {
  params = record parameters { gui_enable = true };
  state = record (new_state toy) {
    pdf2d = some (record { particles = ((1, 2, 3), 0) ∷ []; options = none });
  };
  last_gnss = none;
}

abbrev spatial : Core toy
spatial = record planar {
  state = record (new_state toy) { pdf3d = some (record { particles = []; options = none }) };
}

abbrev beep : Reading
beep = record { label = 1; kind = 2; stamp = 3; odometry = none }

-- The yaw of the plane is the fourth variable in space, and the rest is zero.
abbrev entries : Estimate toy → ℕ × ℕ × ℕ × ℕ
entries e = (e.cov 1 0, e.cov 3 1, e.cov 3 3, e.cov 2 2)

lifted : map_ok entries (estimated_pose toy drawing planar) ≡ ok (10, 21, 22, 0)
unfolding estimated_pose
lifted = refl

abbrev two : List (Update toy drawing)
two = (planar, beep ∷ []) ∷ (planar, beep ∷ beep ∷ []) ∷ []

-- The cloud is one frame late.
late_cloud :
    (update_all toy drawing two shut).0.win3d
    ≡ some (record {
      scene =
          ("parts_cov", ellipsoid2 (1, 2, 0) (some ((0, 1), (10, 11))))
          ∷ ("scan", point_cloud 1 ((1, 2, 0), (3, 0, 0)))
          ∷ ("particles", particles2 (((1, 2, 3), 0) ∷ []))
          ∷ [];
      follow_camera = true;
      pointing_to = some (1, 2);
      texts = some (record { stamp = some 3; particle_count = 1; mean = ((1, 2, 0), (3, 0, 0)) });
      view_at = some ((1, 2, 0), (3, 0, 0));
    })
unfolding update_gui estimated_pose get_by_name change_object insert_object remove_object
late_cloud = refl

update_all-shown_example :
    let (g', outcome) = update_all toy drawing (two ++ (spatial, []) ∷ []) shut in
    ((outcome ≡ err null_pointer)
      ↔ (all_of_kind toy drawing true ((planar, beep ∷ beep ∷ []) ∷ (spatial, []) ∷ []) ≡ false))
    × (all_of_kind toy drawing true ((planar, beep ∷ beep ∷ []) ∷ (spatial, []) ∷ []) ≡ true
        → (outcome ≡ ok tt) × Displays toy drawing true true none spatial 2 [] g')
update_all-shown_example =
    update_all-shown toy drawing true (planar, beep ∷ []) (spatial, [])
      ((planar, beep ∷ beep ∷ []) ∷ []) shut refl refl refl refl
