-- ===== src/Pipeline/Window/Visible.antt =====
-- What the keys of the debug window have done after any number of frames.
use Prim.Native.String.{String}
use mrpt_navigation.Base.{
  ℕ, ◌==◌, Bool, true, not, Option, none, some, List, [], ◌∷◌, ◌++◌, map, ◌≡◌, refl, arith,
  if◌then◌else◌, ◌∙◌, ap,
}
use mrpt_navigation.Pipeline.Local.{Mrpt}
use mrpt_navigation.Pipeline.Window.{
  Window, DrawnCloud, Gui, Frame, on_key, load_cloud, first_layer, window_of, show_gui, show_all,
}

module _ (mrpt : Mrpt) (raw_layer : String) where
  open mrpt use {Points, point_layer, relative}

  abbrev pub after_key : ℕ → Option ℕ → Bool → Bool
  after_key key none flag = flag
  after_key key (some pushed) flag = if pushed == key then not flag else flag

  -- A flag after the presses of its key.
  abbrev pub after_keys : ℕ → List (Frame mrpt) → Bool → Bool
  after_keys key [] flag = flag
  after_keys key (f ∷ fs) flag = after_keys key fs (after_key key f.key flag)

  abbrev pub shown_cloud : Points → Bool → DrawnCloud mrpt
  shown_cloud pts visible = record { points = some pts; is_visible = visible }

  on_key-flags :
      (pushed : Option ℕ) (g : Gui mrpt)
      → ((on_key mrpt pushed g).visible_raw ≡ after_key b'1' pushed g.visible_raw)
        × ((on_key mrpt pushed g).visible_output ≡ after_key b'2' pushed g.visible_output)
  unfolding on_key
  on_key-flags none g = (refl, refl)
  on_key-flags (some pushed) g = (ground arith, ground arith)

  show_all-flags :
      (fs : List (Frame mrpt)) (g : Gui mrpt)
      → let g' = show_all mrpt raw_layer true fs g in
        (g'.visible_raw ≡ after_keys b'1' fs g.visible_raw)
        × (g'.visible_output ≡ after_keys b'2' fs g.visible_output)
  unfolding show_all
  show_all-flags [] g = (refl, refl)
  show_all-flags (f ∷ fs) g =
      let (raw, output) = show_all-flags fs (show_gui mrpt raw_layer true f g) in
      (
        raw ∙ ap (after_keys b'1' fs) (on_key-flags f.key g).0,
        output ∙ ap (after_keys b'2' fs) (on_key-flags f.key g).1,
      )

  -- After any frames and a last one, the window shows an axis for each observation of the last frame,
  -- relative to its pose, and the last frame's layers if it has them, each visible by the parity of
  -- the presses of its key.
  pub show_all-last :
      (fs : List (Frame mrpt)) (f : Frame mrpt) (g : Gui mrpt) (raw output : Points)
      → point_layer f.mm raw_layer ≡ some raw
      → first_layer mrpt f.mm f.layer2topic ≡ some output
      → (w : Window mrpt) × ((show_all mrpt raw_layer true (fs ++ f ∷ []) g).gui_win ≡ some w)
        × (w.obstacles ≡ map (λ o. relative o.1.robot_pose f.cur_robot_pose) f.obs)
        × (w.raw_points ≡ shown_cloud raw (after_keys b'1' (fs ++ f ∷ []) g.visible_raw))
        × (w.final_points ≡ shown_cloud output (after_keys b'2' (fs ++ f ∷ []) g.visible_output))
  unfolding show_all load_cloud
  show_all-last [] f g raw output has_raw has_output =
      let flags = on_key-flags f.key g in
      (
        _,
        refl,
        refl,
        ap
              (λ l.
                load_cloud mrpt l (on_key mrpt f.key g).visible_raw
                  (window_of mrpt (on_key mrpt f.key g).gui_win).raw_points)
              has_raw
            ∙ ap (shown_cloud raw) flags.0,
        ap
              (λ l.
                load_cloud mrpt l (on_key mrpt f.key g).visible_output
                  (window_of mrpt (on_key mrpt f.key g).gui_win).final_points)
              has_output
            ∙ ap (shown_cloud output) flags.1,
      )
  show_all-last (e ∷ fs) f g raw output has_raw has_output =
      let flags = on_key-flags e.key g in
      let (w, there, axes, raw_shown, output_shown) =
        show_all-last fs f (show_gui mrpt raw_layer true e g) raw output has_raw has_output in
      (
        w,
        there,
        axes,
        raw_shown ∙ ap (λ b. shown_cloud raw (after_keys b'1' (fs ++ f ∷ []) b)) flags.0,
        output_shown ∙ ap (λ b. shown_cloud output (after_keys b'2' (fs ++ f ∷ []) b)) flags.1,
      )
