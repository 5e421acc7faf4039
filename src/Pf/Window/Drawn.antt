-- ===== src/Pf/Window/Drawn.antt =====
-- The scene after one drawing.
use Prim.Native.String.{String}
use mrpt_navigation.Base.{
  Bool, true, false, not, Option, none, some, List, [], ◌∷◌, ok, err, null_pointer, has_value, ◌≡◌,
  refl,
}
use mrpt_navigation.Pf.Library.{Mrpt}
use mrpt_navigation.Pf.Parameters.{MultiMap}
use mrpt_navigation.Pf.State.{Core}
use mrpt_navigation.Pf.Scene.{get_by_name, insert_object, remove_object, change_object}
use mrpt_navigation.Pf.Estimate.{Graphics, Estimate, block2, block3}
use mrpt_navigation.Pf.Window.{
  Object, map_visual, ellipsoid2, ellipsoid3, point_cloud, drawn_particles, draw,
}

module _ (mrpt : Mrpt) (graphics : Graphics mrpt) where
  open mrpt use {Real, ratio, x, y, z, Pose3, Obs}
  open graphics use {has_wxwidgets, Points, points_of_frame}

  abbrev pub Scene : Type 0
  Scene = List (String × Object mrpt graphics)

  -- Is it the planar filter that is drawn?
  abbrev pub is_planar : Core mrpt → Bool
  is_planar c = has_value c.state.pdf2d

  -- The ellipsoid of an estimate, by the kind of the filter.
  abbrev pub ellipsoid_of : Bool → Estimate mrpt → Object mrpt graphics
  ellipsoid_of true e = ellipsoid2 (x e.mean, y e.mean, ratio 5 100) (some (block2 mrpt e.cov))
  ellipsoid_of false e = ellipsoid3 (x e.mean, y e.mean, z e.mean) (some (block3 mrpt e.cov))

  abbrev pub on_map : Option (MultiMap mrpt) → Scene → Scene
  on_map none s = s
  on_map (some mm) s = ("", map_visual mm) ∷ s

  -- The scene after the first update, and after any later one.
  abbrev pub scene_of :
      Bool
      → Option (MultiMap mrpt)
      → Object mrpt graphics
      → Object mrpt graphics
      → Object mrpt graphics
      → Scene
  scene_of true m p e s = on_map m (("parts_cov", e) ∷ ("scan", s) ∷ ("particles", p) ∷ [])
  scene_of false m p e s = on_map m (("particles", p) ∷ ("parts_cov", e) ∷ ("scan", s) ∷ [])

  pub draw-new :
      (m : Option (MultiMap mrpt)) (k : Bool) (c : Core mrpt) (e : Estimate mrpt) (last : Points)
      → is_planar c ≡ k
      → draw mrpt graphics c e last (on_map m []) ≡ (
        scene_of false m
            (drawn_particles mrpt graphics c)
            (ellipsoid_of k e)
            (point_cloud last e.mean),
        ok tt,
      )
  unfolding draw get_by_name insert_object remove_object change_object
  draw-new none true c e last h = rw (h, draw) refl
  draw-new none false c e last h = rw (h, draw) refl
  draw-new (some mm) true c e last h = rw (h, draw) refl
  draw-new (some mm) false c e last h = rw (h, draw) refl

  -- With the ellipsoid of the same kind in the scene, and with the other kind's.
  pub draw-again :
      (later : Bool) (m : Option (MultiMap mrpt)) (k : Bool) (c : Core mrpt) (e e' : Estimate mrpt)
      (last points : Points) (p : Object mrpt graphics) (pose : Pose3)
      → is_planar c ≡ k
      → draw mrpt graphics c e last
          (scene_of later m p (ellipsoid_of k e') (point_cloud points pose))
        ≡ (
          scene_of true m
              (drawn_particles mrpt graphics c)
              (ellipsoid_of k e)
              (point_cloud last e.mean),
          ok tt,
        )
  unfolding draw get_by_name insert_object remove_object change_object
  draw-again false none true c e e' last points p pose h = rw (h, draw) refl
  draw-again false none false c e e' last points p pose h = rw (h, draw) refl
  draw-again false (some mm) true c e e' last points p pose h = rw (h, draw) refl
  draw-again false (some mm) false c e e' last points p pose h = rw (h, draw) refl
  draw-again true none true c e e' last points p pose h = rw (h, draw) refl
  draw-again true none false c e e' last points p pose h = rw (h, draw) refl
  draw-again true (some mm) true c e e' last points p pose h = rw (h, draw) refl
  draw-again true (some mm) false c e e' last points p pose h = rw (h, draw) refl

  pub draw-other :
      (later : Bool) (m : Option (MultiMap mrpt)) (k : Bool) (c : Core mrpt) (e e' : Estimate mrpt)
      (last points : Points) (p : Object mrpt graphics) (pose : Pose3)
      → is_planar c ≡ not k
      → (draw mrpt graphics c e last
          (scene_of later m p (ellipsoid_of k e') (point_cloud points pose))).1
        ≡ err null_pointer
  unfolding draw get_by_name insert_object remove_object change_object
  draw-other false none true c e e' last points p pose h = rw (h, draw) refl
  draw-other false none false c e e' last points p pose h = rw (h, draw) refl
  draw-other false (some mm) true c e e' last points p pose h = rw (h, draw) refl
  draw-other false (some mm) false c e e' last points p pose h = rw (h, draw) refl
  draw-other true none true c e e' last points p pose h = rw (h, draw) refl
  draw-other true none false c e e' last points p pose h = rw (h, draw) refl
  draw-other true (some mm) true c e e' last points p pose h = rw (h, draw) refl
  draw-other true (some mm) false c e e' last points p pose h = rw (h, draw) refl
