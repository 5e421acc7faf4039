-- ===== src/Pf/Api/Histories.antt =====
-- What holds of `PFLocalizationCore` after any calls of its API.
use mrpt_navigation.Base.{
  Bool, true, false, Option, none, some, List, [], ◌∷◌, ok, err, null_pointer, ◌≡◌, ◌≢◌, ◌∙◌, refl,
  ap, arith, has_value, All, inl, inr, Result-cases,
}
use mrpt_navigation.Pf.Library.{Mrpt}
use mrpt_navigation.Pf.Parameters.{Parameters, Gaussian, MultiMap}
use mrpt_navigation.Pf.State.{
  FsmState, uninitialized, to_be_initialized, running, Core, Engine, new_core,
}
use mrpt_navigation.Pf.WellFormed.{IsWellFormed, IsSafe}
use mrpt_navigation.Pf.Loading.{load_from}
use mrpt_navigation.Pf.Loading.Sections.{load_from-keeps, load_from-posed}
use mrpt_navigation.Pf.Queue.{on_observation}
use mrpt_navigation.Pf.Initialize.Initialized.{
  on_state_uninitialized-IsWellFormed, on_state_to_be_initialized-IsSafe,
}
use mrpt_navigation.Pf.Running.Stages.{NeverNull}
use mrpt_navigation.Pf.Running.Ran.{on_state_running-IsSafe}
use mrpt_navigation.Pf.Api.{
  relocalize_here, restarted, reset, set_fake_odometry_increment, override_layers,
  set_map_from_metric_map, set_map_from_simple_map, with_pipeline, init_from_yaml, Call, observes,
  steps, resets, relocalizes, sets_map, sets_simple_map, sets_fake_odometry, dispatch, step, after,
  after_all,
}

module _ (mrpt : Mrpt) where
  open mrpt use {Node, Label, Geo, Layer, have_mola, is_empty_node}

  override_layers-HasLayers :
      (params : Parameters mrpt) (ms : List (Option Layer)) {done : List (Option Layer)}
      → override_layers mrpt params ms ≡ ok done
      → All (λ m. has_value m ≡ true) done
  unfolding override_layers
  override_layers-HasLayers params [] h = ground arith
  override_layers-HasLayers params (none ∷ ms) h = cc
  override_layers-HasLayers params (some m ∷ ms) h =
      elim (Result-cases (override_layers mrpt params ms)) [
        | inr (e, failed) ↦ cc (rw (failed, override_layers) at h)
        | inl (rest, done) ↦ ground (arith, override_layers-HasLayers params ms done)
      ]

  override_layers-no_null :
      (params : Parameters mrpt) (ms : List (Option Layer))
      → override_layers mrpt params ms ≢ err null_pointer
  unfolding override_layers
  override_layers-no_null params [] h = cc
  override_layers-no_null params (none ∷ ms) h = cc
  override_layers-no_null params (some m ∷ ms) h =
      elim (Result-cases (override_layers mrpt params ms)) [
        | inl (rest, done) ↦ cc (rw (done, override_layers) at h)
        | inr (e, failed) ↦
            override_layers-no_null params ms (failed ∙ (rw (failed, override_layers) at h))
      ]

  pub set_map-no_null :
      (mm : MultiMap mrpt) (geo : Option Geo) (names : List Label) (c : Core mrpt)
      → (set_map_from_metric_map mrpt mm geo names c).1 ≢ err null_pointer
  unfolding set_map_from_metric_map
  set_map-no_null mm geo names c h = elim (Result-cases (override_layers mrpt c.params mm.maps)) [
    | inl (maps, done) ↦ cc (rw (done, set_map_from_metric_map) at h)
    | inr (e, failed) ↦
        let thrown : e ≡ null_pointer = cc (rw (failed, set_map_from_metric_map) at h) in
        override_layers-no_null c.params mm.maps (failed ∙ ap err thrown)
  ]

  pub set_map-IsWellFormed :
      (mm : MultiMap mrpt) (geo : Option Geo) (names : List Label) (c : Core mrpt)
      → IsWellFormed mrpt c
      → IsWellFormed mrpt (set_map_from_metric_map mrpt mm geo names c).0
  unfolding set_map_from_metric_map
  set_map-IsWellFormed mm geo names c v =
      elim (Result-cases (override_layers mrpt c.params mm.maps)) [
        | inr (e, failed) ↦ rw (failed, set_map_from_metric_map) v
        | inl (maps, done) ↦
            let fine = override_layers-HasLayers c.params mm.maps done in
            rw (done, set_map_from_metric_map) (ground arith)
      ]

  -- `init_from_yaml` on a core that was built with an initial pose and no map.
  pub init_from_yaml-IsWellFormed :
      (params : Parameters mrpt) (n pipeline : Node) {d : Core mrpt}
      → has_value params.initial_pose ≡ true
      → params.metric_map ≡ none
      → (have_mola ≡ true → is_empty_node pipeline ≡ false)
      → init_from_yaml mrpt n pipeline (new_core mrpt params) ≡ ok d
      → IsWellFormed mrpt d
  unfolding init_from_yaml with_pipeline
  init_from_yaml-IsWellFormed params n pipeline posed unmapped given h =
      elim (Result-cases (load_from mrpt n params)) [
        | inr (e, failed) ↦ cc (rw (failed, init_from_yaml) at h)
        | inl (loaded, done) ↦
            let posed' = load_from-posed mrpt n params done posed in
            let (kept, _, _) = load_from-keeps mrpt n params done in ground arith
      ]

  set_map_from_simple_map-IsWellFormed :
      (ini map : Bool) (loaded : Option (MultiMap mrpt)) (c : Core mrpt)
      → IsWellFormed mrpt c
      → IsWellFormed mrpt (set_map_from_simple_map mrpt ini map loaded c).0
  unfolding set_map_from_simple_map
  set_map_from_simple_map-IsWellFormed true true none c v = v
  set_map_from_simple_map-IsWellFormed true true (some mm) c v = set_map-IsWellFormed mm none [] c v
  set_map_from_simple_map-IsWellFormed true false loaded c v = v
  set_map_from_simple_map-IsWellFormed false map loaded c v = v

  pub relocalize_here-IsWellFormed :
      (pose : Gaussian mrpt) (c : Core mrpt)
      → IsWellFormed mrpt c
      → IsWellFormed mrpt (relocalize_here mrpt pose c)
  unfolding relocalize_here restarted
  relocalize_here-IsWellFormed pose c v = ground arith

  module _ (engine : Engine mrpt) where
    dispatch-IsSafe :
        NeverNull mrpt engine
        → (s : FsmState) (c : Core mrpt) → c.state.fsm_state ≡ s
        → IsWellFormed mrpt c
        → IsSafe mrpt (dispatch mrpt engine s c)
    unfolding dispatch
    dispatch-IsSafe laws uninitialized c f v =
        (on_state_uninitialized-IsWellFormed mrpt c f v, λ e. cc)
    dispatch-IsSafe laws to_be_initialized c f v =
        on_state_to_be_initialized-IsSafe mrpt engine c f v
    dispatch-IsSafe laws running c f v = on_state_running-IsSafe mrpt engine laws c f v

    pub step-IsSafe :
        NeverNull mrpt engine
        → (c : Core mrpt) → IsWellFormed mrpt c
        → IsSafe mrpt (step mrpt engine c)
    unfolding step
    step-IsSafe laws c v = dispatch-IsSafe laws c.state.fsm_state c refl v

    pub after-IsWellFormed :
        NeverNull mrpt engine
        → (call : Call mrpt) (c : Core mrpt) → IsWellFormed mrpt c
        → IsWellFormed mrpt (after mrpt engine call c)
    unfolding after reset set_fake_odometry_increment on_observation
    after-IsWellFormed laws (observes o) c v = ground arith
    after-IsWellFormed laws steps c v = (step-IsSafe laws c v).0
    after-IsWellFormed laws resets c v = ground arith
    after-IsWellFormed laws (relocalizes pose) c v = relocalize_here-IsWellFormed pose c v
    after-IsWellFormed laws (sets_map mm geo names) c v = set_map-IsWellFormed mm geo names c v
    after-IsWellFormed laws (sets_simple_map ini map loaded) c v =
        set_map_from_simple_map-IsWellFormed ini map loaded c v
    after-IsWellFormed laws (sets_fake_odometry pose) c v = ground arith

    after_all-IsWellFormed :
        NeverNull mrpt engine
        → (calls : List (Call mrpt)) (c : Core mrpt) → IsWellFormed mrpt c
        → IsWellFormed mrpt (after_all mrpt engine calls c)
    unfolding after_all
    after_all-IsWellFormed laws [] c v = v
    after_all-IsWellFormed laws (call ∷ calls) c v =
        after_all-IsWellFormed laws calls _ (after-IsWellFormed laws call c v)

    -- After any calls on a core that was built with an initial pose and no map, and has loaded its
    -- parameters once, with a relocalization pipeline if relocalization is built in, the invariant
    -- holds, and no further step dereferences a null pointer, if the filter library does not and
    -- relocalization does not with the ICP that it is given. The step's calls of `update_gui` are left
    -- out, as with the debug window off.
    pub after_all-IsSafe :
        (laws : NeverNull mrpt engine) (params : Parameters mrpt) (n pipeline : Node)
        (calls : List (Call mrpt)) {c : Core mrpt}
        → has_value params.initial_pose ≡ true
        → params.metric_map ≡ none
        → (have_mola ≡ true → is_empty_node pipeline ≡ false)
        → init_from_yaml mrpt n pipeline (new_core mrpt params) ≡ ok c
        → IsWellFormed mrpt (after_all mrpt engine calls c)
          × ((step mrpt engine (after_all mrpt engine calls c)).1 ≢ err null_pointer)
    after_all-IsSafe laws params n pipeline calls {c} posed unmapped given loaded =
        let ready = init_from_yaml-IsWellFormed params n pipeline posed unmapped given loaded in
        let v = after_all-IsWellFormed laws calls c ready in (v, (step-IsSafe laws _ v).1)
