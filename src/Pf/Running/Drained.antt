-- ===== src/Pf/Running/Drained.antt =====
-- What a step of the running filter does to the queue, and the particles of a relocalization.
use mrpt_navigation.Base.{
  ℕ, zero, suc, ◌+◌, ◌*◌, Bool, true, false, Option, List, [], ◌∷◌, Result, ok, err, ◌≡◌, refl, ap,
  ◌∙◌, arith, All, All-append, length, length-append, Result-cases, Option-cases, inl, inr,
  class_conflict,
}
use mrpt_navigation.Pf.Library.{Mrpt}
use mrpt_navigation.Pf.Parameters.{Parameters}
use mrpt_navigation.Pf.State.{Core, Engine, RelocalizationInput, Action, InternalState}
use mrpt_navigation.Pf.Queue.{collect, nothing_collected, Collected, sensory_frame}
use mrpt_navigation.Pf.Queue.Conflicts.{Conflict, collect-err_iff}
use mrpt_navigation.Pf.Initialize.{fill_last_result}
use mrpt_navigation.Pf.Initialize.Initialized.{fill_last_result-eq}
use mrpt_navigation.Pf.Running.Ran.{on_state_running-conflict}
use mrpt_navigation.Pf.Relocalization.{
  copies, spread, candidates_or_centre, num_copies, relocalized, relocalize, add_gnss_samples,
}
use mrpt_navigation.Pf.Running.{
  refresh_options, execute, refreshed, update_filter, build_action, proceed, process, used,
  without_queue, drained, on_state_running,
}

module _ (mrpt : Mrpt) where
  open mrpt use {Real, ratio, Pose2, Obs, Stamp}

  copies-length : (a b : Real) (n i : ℕ) (p : Pose2) → length (copies mrpt a b n i p) ≡ n
  unfolding copies
  copies-length a b zero i p = refl
  copies-length a b (suc n) i p = ap suc (copies-length a b n (i + 3) p)

  spread-length :
      (a b : Real) (n i : ℕ) (ps : List Pose2) → length (spread mrpt a b n i ps) ≡ length ps * n
  unfolding spread
  spread-length a b n i [] = omega arith
  spread-length a b n i (p ∷ ps) =
      length-append (copies mrpt a b n i p) (spread mrpt a b n (i + 3 * n) ps)
      ∙ omega (arith, copies-length a b n i p, spread-length a b n (i + 3 * n) ps)

  copies-even :
      (a b : Real) (n i : ℕ) (p : Pose2) → All (λ q. q.1 ≡ ratio 0 1) (copies mrpt a b n i p)
  unfolding copies
  copies-even a b zero i p = tt
  copies-even a b (suc n) i p = (refl, copies-even a b n (i + 3) p)

  spread-even :
      (a b : Real) (n i : ℕ) (ps : List Pose2) → All (λ q. q.1 ≡ ratio 0 1) (spread mrpt a b n i ps)
  unfolding spread
  spread-even a b n i [] = tt
  spread-even a b n i (p ∷ ps) =
      All-append (λ q. q.1 ≡ ratio 0 1) (copies mrpt a b n i p) (spread mrpt a b n (i + 3 * n) ps)
        (copies-even a b n i p) (spread-even a b n (i + 3 * n) ps)

  module _ (engine : Engine mrpt) where
    -- A relocalization gives each candidate pose (or the centre, without any) the same number of
    -- copies, all with the same log weight.
    pub relocalized-particles :
        (params : Parameters mrpt) (input : RelocalizationInput mrpt) (found : List Pose2)
        → (length (relocalized mrpt engine params input found)
            ≡ length (candidates_or_centre mrpt input found) * num_copies mrpt params)
          × All (λ q. q.1 ≡ ratio 0 1) (relocalized mrpt engine params input found)
    unfolding relocalized
    relocalized-particles params input found = (spread-length _ _ _ _ _, spread-even _ _ _ _ _)

    filled-queue : (s : InternalState mrpt) → (fill_last_result mrpt s).pending_obs ≡ s.pending_obs
    filled-queue s = rw (fill_last_result-eq mrpt s) refl

    execute-queue :
        (c : Core mrpt) (action : Action mrpt) (sf : List Obs) (stamp : Option Stamp)
        → (execute mrpt engine c action sf stamp).0.state.pending_obs ≡ c.state.pending_obs
    unfolding execute
    execute-queue c action sf stamp = elim (Option-cases c.state.pdf2d) [
      | inr (pdf, there) ↦ elim (Result-cases (engine.execute2 c.state.pf_options pdf action sf)) [
        | inl ((ps, st), done) ↦ rw (there, execute, done) (filled-queue _)
        | inr (x, thrown) ↦ rw (there, execute, thrown) refl
      ]
      | inl no2 ↦ elim (Option-cases c.state.pdf3d) [
        | inl no3 ↦ rw (no2, execute, no3) refl
        | inr (pdf, there) ↦
            elim (Result-cases (engine.execute3 c.state.pf_options pdf action sf)) [
              | inl ((ps, st), done) ↦ rw (no2, execute, there, done) (filled-queue _)
              | inr (x, thrown) ↦ rw (no2, execute, there, thrown) refl
            ]
      ]
    ]

    refresh_options-queue :
        (c : Core mrpt) {c' : Core mrpt}
        → refresh_options mrpt c ≡ ok c'
        → c'.state.pending_obs ≡ c.state.pending_obs
    unfolding refresh_options
    refresh_options-queue c h = ground arith

    add_gnss_samples-queue :
        (c : Core mrpt) → (add_gnss_samples mrpt engine c).state.pending_obs ≡ c.state.pending_obs
    unfolding add_gnss_samples
    add_gnss_samples-queue c = ground arith

    refreshed-queue :
        (c : Core mrpt) (action : Action mrpt) (sf : List Obs) (stamp : Option Stamp)
        (r : Result (Core mrpt))
        → ((c' : Core mrpt) → r ≡ ok c' → c'.state.pending_obs ≡ c.state.pending_obs)
        → (refreshed mrpt engine c action sf stamp r).0.state.pending_obs ≡ c.state.pending_obs
    unfolding refreshed
    refreshed-queue c action sf stamp (err e) h = refl
    refreshed-queue c action sf stamp (ok c') h =
        execute-queue (add_gnss_samples mrpt engine c') action sf stamp
        ∙ add_gnss_samples-queue c'
        ∙ h c' refl

    relocalize-queue :
        (c : Core mrpt) (sf : List Obs)
        → (relocalize mrpt engine c sf).0.state.pending_obs ≡ c.state.pending_obs
    unfolding relocalize
    relocalize-queue c sf = ground arith

    build_action-queue :
        (c : Core mrpt) (sf : List Obs) (stamp : Option Stamp)
        → (build_action mrpt c sf stamp).0.state.pending_obs ≡ c.state.pending_obs
    unfolding build_action
    build_action-queue c sf stamp = ground arith

    proceed-queue :
        (action : Action mrpt) (sf : List Obs) (stamp : Option Stamp) (r : Core mrpt × Result Bool)
        → (proceed mrpt engine action sf stamp r).0.state.pending_obs ≡ r.0.state.pending_obs
    unfolding proceed update_filter
    proceed-queue action sf stamp (c, err e) = refl
    proceed-queue action sf stamp (c, ok false) = refl
    proceed-queue action sf stamp (c, ok true) =
        refreshed-queue c action sf stamp (refresh_options mrpt c) (λ c'. refresh_options-queue c)

    process-queue :
        (c : Core mrpt) (sf : List Obs) (stamp : Option Stamp)
        → (process mrpt engine c sf stamp).0.state.pending_obs ≡ c.state.pending_obs
    unfolding process
    process-queue c sf stamp =
        let m = build_action mrpt c sf stamp in
        proceed-queue m.1 sf stamp (relocalize mrpt engine m.0 sf)
        ∙ relocalize-queue m.0 sf
        ∙ build_action-queue c sf stamp

    used-queue :
        (c : Core mrpt) (sf : List Obs) (stamp : Option Stamp) (r : Result Bool)
        → (used mrpt engine c sf stamp r).0.state.pending_obs ≡ c.state.pending_obs
    unfolding used
    used-queue c sf stamp (err e) = refl
    used-queue c sf stamp (ok true) = process-queue c sf stamp
    used-queue c sf stamp (ok false) = filled-queue c.state

    drained-queue :
        (c : Core mrpt) (w : Collected mrpt)
        → (drained mrpt engine c (ok w)).0.state.pending_obs ≡ []
    unfolding drained without_queue
    drained-queue c w =
        used-queue (without_queue mrpt engine c) (sensory_frame mrpt w) w.last_stamp _

    -- A step of the running filter empties the queue, however it ends, unless two queued
    -- observations with one label differ in class: then it throws and the core is as before.
    pub on_state_running-queue :
        (c : Core mrpt)
        → (Conflict mrpt c.state.pending_obs
            → on_state_running mrpt engine c ≡ (c, err class_conflict))
          × (¬ Conflict mrpt c.state.pending_obs
              → (on_state_running mrpt engine c).0.state.pending_obs ≡ [])
    unfolding on_state_running
    on_state_running-queue c = (
      on_state_running-conflict mrpt engine c,
      λ free. elim (Result-cases (collect mrpt c.state.pending_obs (nothing_collected mrpt))) [
        | inl (w, e) ↦ rw (e, on_state_running) (drained-queue c w)
        | inr (x, e) ↦ absurd (free ((collect-err_iff mrpt c.state.pending_obs).0 (x, e)))
      ],
    )
