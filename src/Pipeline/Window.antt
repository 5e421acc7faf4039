-- ===== src/Pipeline/Window.antt =====
-- The debug window of `on_do_publish` in mrpt_pointcloud_pipeline_node.cpp. Sizes, colours and the
-- grid of the ground are left out.
pub mod Visible
use Prim.Native.String.{String}
use mrpt_navigation.Base.{
  ℕ, ◌==◌, Bool, true, false, not, Option, none, some, List, [], ◌∷◌, ◌++◌, map, if◌then◌else◌,
}
use mrpt_navigation.Pipeline.Local.{Mrpt, ObsList, LayerTopicNames}

module _ (mrpt : Mrpt) where
  open mrpt use {Pose, relative, Map, Points, point_layer}

  -- `CPointCloud`, with no points yet or those of a layer
  pub record DrawnCloud : Type 0 where
    pub points : Option Points
    pub is_visible : Bool

  -- The set "obstacles" has an axis for every observation. Nothing ever leaves the scene, so the
  -- lookups by name find their objects.
  pub record Window : Type 0 where
    pub obstacles : List Pose
    pub raw_points : DrawnCloud
    pub final_points : DrawnCloud
    -- the two words of the text, "VISIBLE" or "hidden"
    pub text : Option (Bool × Bool)

  pub record Gui : Type 0 where
    pub gui_win : Option Window
    pub visible_raw : Bool
    pub visible_output : Bool

  pub new_window : Window
  new_window = record {
    obstacles = [];
    raw_points = record { points = none; is_visible = true };
    final_points = record { points = none; is_visible = true };
    text = none;
  }

  -- The `switch` on the pushed key, if one has been hit.
  pub on_key : Option ℕ → Gui → Gui
  on_key none g = g
  on_key (some key) g =
      if key == b'1'
      then record g { visible_raw = not g.visible_raw }
      else if key == b'2'
      then record g { visible_output = not g.visible_output }
      else g

  -- A layer that is not there leaves the cloud as it was.
  pub load_cloud : Option Points → Bool → DrawnCloud → DrawnCloud
  load_cloud none visible c = c
  load_cloud (some pts) visible c = record { points = some pts; is_visible = visible }

  pub first_layer : Map → List (LayerTopicNames mrpt) → Option Points
  first_layer mm [] = none
  first_layer mm (e ∷ es) = point_layer mm e.layer

  pub window_of : Option Window → Window
  unfolding new_window
  window_of none = new_window
  window_of (some w) = w

  -- The frame that is drawn: the key, the robot's pose, the observations, the map and the layers.
  pub record Frame : Type 0 where
    pub key : Option ℕ
    pub cur_robot_pose : Pose
    pub obs : ObsList mrpt
    pub mm : Map
    pub layer2topic : List (LayerTopicNames mrpt)

  module _ (raw_layer : String) where
    drawn : Frame → Gui → Gui
    unfolding load_cloud first_layer window_of
    drawn f g =
        let w = window_of g.gui_win in
        record g {
          gui_win = some (record {
            obstacles = map (λ o. relative o.1.robot_pose f.cur_robot_pose) f.obs;
            raw_points = load_cloud (point_layer f.mm raw_layer) g.visible_raw w.raw_points;
            final_points =
                load_cloud (first_layer f.mm f.layer2topic) g.visible_output w.final_points;
            text = some (g.visible_raw, g.visible_output);
          });
        }

    -- The block "Show gui" of one timer.
    pub show_gui : Bool → Frame → Gui → Gui
    unfolding drawn on_key
    show_gui m_show_gui f g = if m_show_gui then drawn f (on_key f.key g) else g

    pub show_all : Bool → List Frame → Gui → Gui
    unfolding show_gui
    show_all m_show_gui [] g = g
    show_all m_show_gui (f ∷ fs) g = show_all m_show_gui fs (show_gui m_show_gui f g)
