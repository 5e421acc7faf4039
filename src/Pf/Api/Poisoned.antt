-- ===== src/Pf/Api/Poisoned.antt =====
-- Two observations with one label and different classes: `onStateRunning` throws before it empties
-- the queue, so the queue keeps them.
use mrpt_navigation.Base.{
  Bool, true, false, Option, none, some, List, [], ◌∷◌, ◌++◌, err, class_conflict, ◌≡◌, refl, sym,
  subst, ◌∙◌, ap, All, inl, inr, Result-cases,
}
use mrpt_navigation.Pf.Library.{Mrpt}
use mrpt_navigation.Pf.Parameters.{MultiMap}
use mrpt_navigation.Pf.State.{FsmState, uninitialized, to_be_initialized, running, Core, Engine}
use mrpt_navigation.Pf.Queue.{on_observation}
use mrpt_navigation.Pf.Queue.Conflicts.{Conflict, Has}
use mrpt_navigation.Pf.Running.Ran.{on_state_running-conflict}
use mrpt_navigation.Pf.Api.{
  set_fake_odometry_increment, override_layers, set_map_from_metric_map, set_map_from_simple_map,
  Call, observes, steps, resets, relocalizes, sets_map, sets_simple_map, sets_fake_odometry,
  dispatch, step, after, after_all,
}

module _ (mrpt : Mrpt) where
  open mrpt use {Obs, Geo, Label}

  -- The calls that do not start the filter anew.
  abbrev pub goes_on : Call mrpt → Bool
  goes_on resets = false
  goes_on (relocalizes _) = false
  goes_on _ = true

  Has-append : (o : Obs) (os ps : List (Option Obs)) → Has mrpt o os → Has mrpt o (os ++ ps)
  Has-append o [] ps h = absurd h
  Has-append o (none ∷ os) ps h = Has-append o os ps h
  Has-append o (some p ∷ os) ps (inl e) = inl e
  Has-append o (some p ∷ os) ps (inr h) = inr (Has-append o os ps h)

  Conflict-append : (os ps : List (Option Obs)) → Conflict mrpt os → Conflict mrpt (os ++ ps)
  Conflict-append os ps k = record {
    one = k.one;
    other = k.other;
    one_queued = Has-append k.one os ps k.one_queued;
    other_queued = Has-append k.other os ps k.other_queued;
    same_label = k.same_label;
    other_class = k.other_class;
  }

  -- The filter runs, and a conflict is queued.
  abbrev pub IsPoisoned : Core mrpt → Type 0
  IsPoisoned c = (c.state.fsm_state ≡ running) × Conflict mrpt c.state.pending_obs

  set_map-state :
      (mm : MultiMap mrpt) (geo : Option Geo) (names : List Label) (c : Core mrpt)
      → (set_map_from_metric_map mrpt mm geo names c).0.state ≡ c.state
  unfolding set_map_from_metric_map
  set_map-state mm geo names c = elim (Result-cases (override_layers mrpt c.params mm.maps)) [
    | inl (_, e) ↦ rw (e, set_map_from_metric_map) refl
    | inr (_, e) ↦ rw (e, set_map_from_metric_map) refl
  ]

  set_map_from_simple_map-state :
      (ini map : Bool) (loaded : Option (MultiMap mrpt)) (c : Core mrpt)
      → (set_map_from_simple_map mrpt ini map loaded c).0.state ≡ c.state
  unfolding set_map_from_simple_map
  set_map_from_simple_map-state true true none c = refl
  set_map_from_simple_map-state true true (some mm) c = set_map-state mm none [] c
  set_map_from_simple_map-state true false loaded c = refl
  set_map_from_simple_map-state false map loaded c = refl

  -- Being poisoned is a matter of the state alone.
  IsPoisoned-of_state : (c d : Core mrpt) → d.state ≡ c.state → IsPoisoned c → IsPoisoned d
  IsPoisoned-of_state c d e (f, k) =
      (ap (λ s. s.fsm_state) e ∙ f, subst (λ s. Conflict mrpt s.pending_obs) (sym e) k)

  module _ (engine : Engine mrpt) where
    dispatch-IsPoisoned :
        (s : FsmState) (c : Core mrpt)
        → s ≡ running
        → Conflict mrpt c.state.pending_obs
        → dispatch mrpt engine s c ≡ (c, err class_conflict)
    unfolding dispatch
    dispatch-IsPoisoned uninitialized c f k = cc
    dispatch-IsPoisoned to_be_initialized c f k = cc
    dispatch-IsPoisoned running c f k = on_state_running-conflict mrpt engine c k

    step-IsPoisoned : (c : Core mrpt) → IsPoisoned c → step mrpt engine c ≡ (c, err class_conflict)
    unfolding step
    step-IsPoisoned c (f, k) = dispatch-IsPoisoned c.state.fsm_state c f k

    after-IsPoisoned :
        (call : Call mrpt) (c : Core mrpt)
        → goes_on call ≡ true
        → IsPoisoned c
        → IsPoisoned (after mrpt engine call c)
    unfolding after on_observation set_fake_odometry_increment
    after-IsPoisoned (observes o) c g (f, k) = (f, Conflict-append c.state.pending_obs (o ∷ []) k)
    after-IsPoisoned steps c g p =
        IsPoisoned-of_state c (step mrpt engine c).0 (ap (λ r. r.0.state) (step-IsPoisoned c p)) p
    after-IsPoisoned resets c g p = cc
    after-IsPoisoned (relocalizes _) c g p = cc
    after-IsPoisoned (sets_map mm geo names) c g p =
        IsPoisoned-of_state c (set_map_from_metric_map mrpt mm geo names c).0
          (set_map-state mm geo names c) p
    after-IsPoisoned (sets_simple_map ini map loaded) c g p =
        IsPoisoned-of_state c (set_map_from_simple_map mrpt ini map loaded c).0
          (set_map_from_simple_map-state ini map loaded c) p
    after-IsPoisoned (sets_fake_odometry pose) c g p = p

    after_all-IsPoisoned :
        (calls : List (Call mrpt)) (c : Core mrpt)
        → All (λ call. goes_on call ≡ true) calls
        → IsPoisoned c
        → IsPoisoned (after_all mrpt engine calls c)
    unfolding after_all
    after_all-IsPoisoned [] c g p = p
    after_all-IsPoisoned (call ∷ calls) c (g, gs) p =
        after_all-IsPoisoned calls _ gs (after-IsPoisoned call c g p)

    -- A running filter with a conflict in its queue throws at every later step, whatever other calls
    -- come between, until it is reset or relocalized.
    pub poisoned_forever :
        (calls : List (Call mrpt)) (c : Core mrpt)
        → All (λ call. goes_on call ≡ true) calls
        → c.state.fsm_state ≡ running
        → Conflict mrpt c.state.pending_obs
        → (step mrpt engine (after_all mrpt engine calls c)).1 ≡ err class_conflict
    poisoned_forever calls c g f k =
        ap (λ r. r.1) (step-IsPoisoned _ (after_all-IsPoisoned calls c g (f, k)))
