-- ===== src/Pf/Window.antt =====
-- `init_gui` and `update_gui` of mrpt_pf_localization_core.cpp: the debug window. Fonts, colours,
-- line widths, zoom and angles of cameras are left out.
pub mod Drawn
pub mod Kinds
pub mod Updated
pub mod Shown
use Prim.Native.String.{String}
use mrpt_navigation.Base.{
  ℕ, ◌==◌, ◌&&◌, Bool, true, false, not, Option, none, some, List, [], ◌∷◌, Result, ok, err,
  null_pointer, if◌then◌else◌, has_value, length,
}
use mrpt_navigation.Pf.Library.{Mrpt}
use mrpt_navigation.Pf.Parameters.{Parameters, MultiMap}
use mrpt_navigation.Pf.State.{Core, Particles, Pdf}
use mrpt_navigation.Pf.Estimate.{
  Matrix, Block2, block2, Block3, block3, Graphics, Estimate, estimated_pose,
}
use mrpt_navigation.Pf.Scene.{get_by_name, insert_object, remove_object, change_object}

module _ (mrpt : Mrpt) where
  open mrpt use {Real, ratio, Pose2, Pose3, x, y, z, identity3, Obs, Stamp, timestamp}

  module _ (graphics : Graphics mrpt) where
    open graphics use {has_wxwidgets, is_valid, Points, no_points, points_of_frame}

    -- The objects of the scene: the map's, both kinds of particles and of ellipsoids, and a cloud. An
    -- ellipsoid has no covariance until it is given one.
    pub data Object : Type 0 where
      map_visual : MultiMap mrpt → Object
      particles2 : Particles mrpt Pose2 → Object
      particles3 : Particles mrpt Pose3 → Object
      ellipsoid2 : Real × Real × Real → Option (Block2 mrpt) → Object
      ellipsoid3 : Real × Real × Real → Option (Block3 mrpt) → Object
      point_cloud : Points → Pose3 → Object

    pub record Texts : Type 0 where
      pub stamp : Option Stamp
      pub particle_count : ℕ
      pub mean : Pose3

    pub record Window : Type 0 where
      pub scene : List (String × Object)
      pub follow_camera : Bool
      pub pointing_to : Option (Real × Real)
      pub texts : Option Texts
      pub view_at : Option Pose3

    -- `win3D_`, and the static `last_map` of `update_gui`, which all objects of the class share.
    pub record Gui : Type 0 where
      pub win3d : Option Window
      pub last_map : Points

    pub new_window : Core mrpt → Window
    new_window c = elim c.state.metric_map [
      | none ↦ record {
        scene = [];
        follow_camera = false;
        pointing_to = none;
        texts = none;
        view_at = none;
      }
      | some mm ↦ record {
        scene = insert_object "" (map_visual mm) [];
        follow_camera = c.params.gui_camera_follow_robot;
        pointing_to = none;
        texts = none;
        view_at = none;
      }
    ]

    -- What `init_gui` leaves in `win3D_`, if the window is enabled.
    pub init_gui : Core mrpt → Option Window → Window
    unfolding new_window
    init_gui c none = new_window c
    init_gui c (some w) = w

    first_stamp : List Obs → Option Stamp
    first_stamp [] = none
    first_stamp (o ∷ os) = if is_valid (timestamp o) then some (timestamp o) else none

    -- The number of particles and their object; the filter is there if the estimate was.
    particle_count : Core mrpt → ℕ
    particle_count c = elim c.state.pdf2d [
      | some pdf ↦ length pdf.particles
      | none ↦ elim c.state.pdf3d [ some pdf ↦ length pdf.particles | none ↦ 0 ]
    ]

    pub drawn_particles : Core mrpt → Object
    drawn_particles c = elim c.state.pdf2d [
      | some pdf ↦ particles2 pdf.particles
      | none ↦ elim c.state.pdf3d [ some pdf ↦ particles3 pdf.particles | none ↦ particles3 [] ]
    ]

    draw_particles : Core mrpt → List (String × Object) → List (String × Object)
    unfolding drawn_particles
    draw_particles c s = insert_object "particles" (drawn_particles c) (remove_object "particles" s)

    set_location : Real × Real × Real → Object → Object
    set_location p (ellipsoid2 q cov) = ellipsoid2 p cov
    set_location p (ellipsoid3 q cov) = ellipsoid3 p cov
    set_location p o = o

    -- `dynamic_cast` to either class of ellipsoid, and `setCovMatrix`.
    set_cov2 : Block2 mrpt → Option Object → Option Object
    set_cov2 b (some (ellipsoid2 p cov)) = some (ellipsoid2 p (some b))
    set_cov2 b _ = none

    set_cov3 : Block3 mrpt → Option Object → Option Object
    set_cov3 b (some (ellipsoid3 p cov)) = some (ellipsoid3 p (some b))
    set_cov3 b _ = none

    -- A call through the pointer of a cast, which may be null.
    through_cast :
        String → Option Object → List (String × Object) → List (String × Object) × Result (Unit {0})
    through_cast name none s = (s, err null_pointer)
    through_cast name (some o) s = (change_object name (λ old. o) s, ok tt)

    -- The object with this name, inserted if there is none.
    with_object : String → Object → List (String × Object) → List (String × Object)
    with_object name fresh s =
        if has_value (get_by_name name s) then s else insert_object name fresh s

    origin : Real × Real × Real
    origin = (ratio 0 1, ratio 0 1, ratio 0 1)

    draw_ellipsoid :
        Core mrpt
        → Estimate mrpt
        → List (String × Object)
        → List (String × Object) × Result (Unit {0})
    unfolding set_location set_cov2 set_cov3 through_cast with_object origin
    draw_ellipsoid c e s =
        if has_value c.state.pdf2d
        then (let s' =
              change_object "parts_cov" (set_location (x e.mean, y e.mean, ratio 5 100))
                (with_object "parts_cov" (ellipsoid2 origin none) s) in
            through_cast "parts_cov" (set_cov2 (block2 mrpt e.cov) (get_by_name "parts_cov" s')) s')
        else (let s' =
              change_object "parts_cov" (set_location (x e.mean, y e.mean, z e.mean))
                (with_object "parts_cov" (ellipsoid3 origin none) s) in
            through_cast "parts_cov" (set_cov3 (block3 mrpt e.cov) (get_by_name "parts_cov" s')) s')

    as_cloud : Points → Pose3 → Option Object → Option Object
    as_cloud points pose (some (point_cloud old at)) = some (point_cloud points pose)
    as_cloud points pose _ = none

    -- The cloud is loaded from `last_map`, and `last_map` then from the frame.
    draw_scan : Pose3 → Points → List (String × Object) → List (String × Object) × Result (Unit {0})
    unfolding through_cast with_object as_cloud
    draw_scan mean last s =
        let s' = with_object "scan" (point_cloud no_points identity3) s in
        through_cast "scan" (as_cloud last mean (get_by_name "scan" s')) s'

    then_scan :
        Pose3
        → Points
        → List (String × Object) × Result (Unit {0})
        → List (String × Object) × Result (Unit {0})
    unfolding draw_scan
    then_scan mean last (s, err thrown) = (s, err thrown)
    then_scan mean last (s, ok _) = draw_scan mean last s

    -- The block "The particles" and the two after it.
    pub draw :
        Core mrpt
        → Estimate mrpt
        → Points
        → List (String × Object)
        → List (String × Object) × Result (Unit {0})
    unfolding draw_particles draw_ellipsoid then_scan
    draw c e last s = then_scan e.mean last (draw_ellipsoid c e (draw_particles c s))

    -- The window while the scene is locked.
    pub with_texts : Core mrpt → List Obs → Estimate mrpt → Window → Window
    unfolding first_stamp particle_count
    with_texts c sf e w = record w {
      pointing_to = some (x e.mean, y e.mean);
      texts =
          some
            (record { stamp = first_stamp sf; particle_count = particle_count c; mean = e.mean });
    }

    pub finished :
        List Obs
        → Pose3
        → Window
        → List (String × Object) × Result (Unit {0})
        → Gui
        → Gui × Result (Unit {0})
    finished sf mean w (s, err thrown) gui =
        (record gui { win3d = some (record w { scene = s }) }, err thrown)
    finished sf mean w (s, ok _) gui = (
      record {
        win3d = some (record w { scene = s; follow_camera = true; view_at = some mean });
        last_map = points_of_frame sf;
      },
      ok tt,
    )

    pub shown :
        Core mrpt → List Obs → Window → Gui → Result (Estimate mrpt) → Gui × Result (Unit {0})
    unfolding draw with_texts finished
    shown c sf w gui (err thrown) = (record gui { win3d = some w }, err thrown)
    shown c sf w gui (ok e) =
        let w' = with_texts c sf e w in finished sf e.mean w' (draw c e gui.last_map w'.scene) gui

    unfoldable pub update_gui : Core mrpt → List Obs → Gui → Gui × Result (Unit {0})
    unfolding shown init_gui
    update_gui c sf gui =
        if not has_wxwidgets
        then (gui, ok tt)
        else if not c.params.gui_enable
        then (gui, ok tt)
        else shown c sf (init_gui c gui.win3d) gui (estimated_pose mrpt graphics c)
