-- ===== src/Pf/Window/Updated.antt =====
-- One update of the debug window.
use mrpt_navigation.Base.{
  Bool, true, false, not, Option, none, some, List, [], Result, ok, err, null_pointer, ◌≡◌, inl,
  inr, refl, ap, subst, ◌∙◌, arith, if◌then◌else◌,
}
use mrpt_navigation.Pf.Library.{Mrpt}
use mrpt_navigation.Pf.Parameters.{MultiMap}
use mrpt_navigation.Pf.State.{Core}
use mrpt_navigation.Pf.Scene.{insert_object}
use mrpt_navigation.Pf.Estimate.{Graphics, Estimate, estimated_pose}
use mrpt_navigation.Pf.Window.{
  Window, Gui, point_cloud, drawn_particles, draw, new_window, init_gui, with_texts, finished,
  shown, update_gui,
}
use mrpt_navigation.Pf.Window.Drawn.{
  Scene, ellipsoid_of, on_map, scene_of, draw-new, draw-again, draw-other,
}
use mrpt_navigation.Pf.Window.Kinds.{of_kind, of_kind-planar, of_kind-estimated, not-of_kind}

module _ (mrpt : Mrpt) (graphics : Graphics mrpt) where
  open mrpt use {Obs}
  open graphics use {has_wxwidgets, Points, points_of_frame}

  -- The window shows a core's particles and ellipsoid, on a map, with a cloud of the given points,
  -- and keeps a frame's points for the next time.
  pub record Displays (later k : Bool) (m : Option (MultiMap mrpt)) (c : Core mrpt) (drawn : Points)
      (sf : List Obs) (g : Gui mrpt graphics) : Type 0 where
    pub window : Window mrpt graphics
    pub there : g.win3d ≡ some window
    pub estimate : Estimate mrpt
    pub estimated : estimated_pose mrpt graphics c ≡ ok estimate
    pub scene :
        window.scene
        ≡ scene_of mrpt graphics later m
            (drawn_particles mrpt graphics c)
            (ellipsoid_of mrpt graphics k estimate)
            (point_cloud drawn estimate.mean)
    pub follows : window.follow_camera ≡ true
    pub last : g.last_map ≡ points_of_frame sf

  if-not : {A : Type 0} (b : Bool) (x y : A) → b ≡ true → (if not b then x else y) ≡ y
  if-not true x y h = refl
  if-not false x y h = ground (arith, h)

  -- An enabled update, by its estimate.
  enabled-eq :
      (c : Core mrpt) (sf : List Obs) (g : Gui mrpt graphics) (r : Result (Estimate mrpt))
      → has_wxwidgets ≡ true
      → c.params.gui_enable ≡ true
      → estimated_pose mrpt graphics c ≡ r
      → update_gui mrpt graphics c sf g
        ≡ shown mrpt graphics c sf (init_gui mrpt graphics c g.win3d) g r
  unfolding update_gui
  enabled-eq c sf g r built enabled there =
      if-not has_wxwidgets _ _ built
      ∙ if-not c.params.gui_enable _ _ enabled
      ∙ ap (shown mrpt graphics c sf (init_gui mrpt graphics c g.win3d) g) there

  -- An enabled update, with its estimate and its drawing.
  drawn-eq :
      (c : Core mrpt) (sf : List Obs) (g : Gui mrpt graphics) (e : Estimate mrpt)
      → has_wxwidgets ≡ true
      → c.params.gui_enable ≡ true
      → estimated_pose mrpt graphics c ≡ ok e
      → let w = init_gui mrpt graphics c g.win3d in
        update_gui mrpt graphics c sf g
        ≡ finished mrpt graphics sf e.mean
            (with_texts mrpt graphics c sf e w)
            (draw mrpt graphics c e g.last_map w.scene)
            g
  unfolding shown with_texts
  drawn-eq c sf g e built enabled there = enabled-eq c sf g (ok e) built enabled there

  undrawn-eq :
      (c : Core mrpt) (sf : List Obs) (g : Gui mrpt graphics)
      → has_wxwidgets ≡ true
      → c.params.gui_enable ≡ true
      → estimated_pose mrpt graphics c ≡ err null_pointer
      → (update_gui mrpt graphics c sf g).1 ≡ err null_pointer
  unfolding shown
  undrawn-eq c sf g built enabled missing =
      ap (λ o. o.1) (enabled-eq c sf g (err null_pointer) built enabled missing)

  new_scene :
      (m : Option (MultiMap mrpt)) (c : Core mrpt)
      → c.state.metric_map ≡ m
      → (new_window mrpt graphics c).scene ≡ on_map mrpt graphics m []
  unfolding new_window insert_object
  new_scene none c h = rw (h, new_window) refl
  new_scene (some mm) c h = rw (h, new_window) refl

  finished-err :
      (sf : List Obs) (mean : mrpt.Pose3) (w : Window mrpt graphics)
      (d : Scene mrpt graphics × Result (Unit {0})) (g : Gui mrpt graphics)
      → d.1 ≡ err null_pointer
      → (finished mrpt graphics sf mean w d g).1 ≡ err null_pointer
  unfolding finished
  finished-err sf mean w (s, err thrown) g h = h
  finished-err sf mean w (s, ok _) g h = ground (arith, h)

  displayed :
      (later k : Bool) (m : Option (MultiMap mrpt)) (c : Core mrpt) (sf : List Obs)
      (g : Gui mrpt graphics) (e : Estimate mrpt)
      → has_wxwidgets ≡ true
      → c.params.gui_enable ≡ true
      → estimated_pose mrpt graphics c ≡ ok e
      → draw mrpt graphics c e g.last_map (init_gui mrpt graphics c g.win3d).scene ≡ (
        scene_of mrpt graphics later m
            (drawn_particles mrpt graphics c)
            (ellipsoid_of mrpt graphics k e)
            (point_cloud g.last_map e.mean),
        ok tt,
      )
      → (g' : Gui mrpt graphics) × (update_gui mrpt graphics c sf g ≡ (g', ok tt))
        × Displays later k m c g.last_map sf g'
  unfolding finished
  displayed later k m c sf g e built enabled there drawn = (
    _,
    drawn-eq c sf g e built enabled there
        ∙ ap
            (λ d.
              finished mrpt graphics sf e.mean
                (with_texts mrpt graphics c sf e (init_gui mrpt graphics c g.win3d)) d g)
            drawn,
    record {
      window = _;
      there = refl;
      estimate = e;
      estimated = there;
      scene = refl;
      follows = refl;
      last = refl;
    },
  )

  pub first-Displays :
      (k : Bool) (c : Core mrpt) (sf : List Obs) (g : Gui mrpt graphics)
      → has_wxwidgets ≡ true
      → c.params.gui_enable ≡ true
      → g.win3d ≡ none
      → of_kind mrpt graphics k c ≡ true
      → (g' : Gui mrpt graphics) × (update_gui mrpt graphics c sf g ≡ (g', ok tt))
        × Displays false k c.state.metric_map c g.last_map sf g'
  unfolding init_gui
  first-Displays k c sf g built enabled shut kind =
      let (e, there) = of_kind-estimated mrpt graphics k c kind in
      displayed false k c.state.metric_map c sf g e built enabled there (
        ap (λ w. draw mrpt graphics c e g.last_map (init_gui mrpt graphics c w).scene) shut
        ∙ ap (draw mrpt graphics c e g.last_map) (new_scene c.state.metric_map c refl)
        ∙ draw-new mrpt graphics c.state.metric_map k c e g.last_map
            (of_kind-planar mrpt graphics k c kind))

  module _ (later k : Bool) (m : Option (MultiMap mrpt)) (c0 c : Core mrpt) (drawn : Points)
      (sf0 sf : List Obs) (g : Gui mrpt graphics) (built : has_wxwidgets ≡ true)
      (enabled : c.params.gui_enable ≡ true) (shows : Displays later k m c0 drawn sf0 g) where
    old_scene :
        (init_gui mrpt graphics c g.win3d).scene
        ≡ scene_of mrpt graphics later m
            (drawn_particles mrpt graphics c0)
            (ellipsoid_of mrpt graphics k shows.estimate)
            (point_cloud drawn shows.estimate.mean)
    unfolding init_gui
    old_scene = ap (λ w. (init_gui mrpt graphics c w).scene) shows.there ∙ shows.scene

    pub again-Displays :
        of_kind mrpt graphics k c ≡ true
        → (g' : Gui mrpt graphics) × (update_gui mrpt graphics c sf g ≡ (g', ok tt))
          × Displays true k m c (points_of_frame sf0) sf g'
    again-Displays kind =
        let (e, there) = of_kind-estimated mrpt graphics k c kind in
        let (g', updated, displays) = displayed true k m c sf g e built enabled there (
          ap (draw mrpt graphics c e g.last_map) old_scene
          ∙ draw-again mrpt graphics later m k c e shows.estimate g.last_map drawn _ _
              (of_kind-planar mrpt graphics k c kind)) in
        (g', updated, subst (λ points. Displays true k m c points sf g') shows.last displays)

    pub other-null :
        of_kind mrpt graphics k c ≡ false → (update_gui mrpt graphics c sf g).1 ≡ err null_pointer
    other-null kind = elim (not-of_kind mrpt graphics k c kind) [
      | inl missing ↦ undrawn-eq c sf g built enabled missing
      | inr (e, there, other) ↦
          ap (λ o. o.1) (drawn-eq c sf g e built enabled there)
          ∙ finished-err sf e.mean _ _ g (
              ap (λ s. (draw mrpt graphics c e g.last_map s).1) old_scene
              ∙ draw-other mrpt graphics later m k c e shows.estimate g.last_map drawn _ _ other)
    ]
