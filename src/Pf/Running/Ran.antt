-- ===== src/Pf/Running/Ran.antt =====
-- What one filter step leaves behind.
use mrpt_navigation.Base.{
  Bool, true, false, Option, none, some, List, Result, ok, err, null_pointer, ◌≡◌, ◌≢◌, ◌∙◌, arith,
  Option-cases, Result-cases, inl, inr, class_conflict,
}
use mrpt_navigation.Pf.Library.{Mrpt}
use mrpt_navigation.Pf.State.{running, Core, Engine, Particles, Action, Pdf}
use mrpt_navigation.Pf.WellFormed.{IsWellFormed, IsSafe}
use mrpt_navigation.Pf.Queue.{Collected, collect, nothing_collected, sensory_frame}
use mrpt_navigation.Pf.Queue.Conflicts.{collect-err_iff, Conflict}
use mrpt_navigation.Pf.Initialize.Initialized.{filled-IsWellFormed}
use mrpt_navigation.Pf.Relocalization.{relocalize}
use mrpt_navigation.Pf.Running.{
  build_action, refresh_options, execute, refreshed, update_filter, proceed, process, used,
  without_queue, drained, on_state_running,
}
use mrpt_navigation.Pf.Running.Stages.{
  NeverNull, can_use-no_null, build_action-IsWellFormed, build_action-fsm,
  refresh_options-IsWellFormed, refresh_options-ok, relocalize-IsWellFormed,
  add_gnss_samples-IsWellFormed,
}

module _ (mrpt : Mrpt) where
  open mrpt use {Pose2, Pose3, Obs, Stamp, Stats, Layer}

  module _ (engine : Engine mrpt) where
    stepped2-IsWellFormed :
        (c : Core mrpt) (pdf : Pdf mrpt Pose2) (ps : Particles mrpt Pose2) (st : Stats)
        (stamp : Option Stamp)
        → c.state.pdf2d ≡ some pdf
        → IsWellFormed mrpt c
        → IsWellFormed mrpt (record c {
          state = record (c.state) {
            pf_stats = st;
            pdf2d = some (record pdf { particles = ps });
            time_last_update = stamp;
          };
          last_gnss = none;
        })
    stepped2-IsWellFormed c pdf ps st stamp e v = ground arith

    stepped3-IsWellFormed :
        (c : Core mrpt) (pdf : Pdf mrpt Pose3) (ps : Particles mrpt Pose3) (st : Stats)
        (stamp : Option Stamp)
        → c.state.pdf3d ≡ some pdf
        → IsWellFormed mrpt c
        → IsWellFormed mrpt (record c {
          state = record (c.state) {
            pf_stats = st;
            pdf3d = some (record pdf { particles = ps });
            time_last_update = stamp;
          };
          last_gnss = none;
        })
    stepped3-IsWellFormed c pdf ps st stamp e v = ground arith

    module _ (laws : NeverNull mrpt engine) where
      execute-IsSafe :
          (c : Core mrpt) (a : Action mrpt) (sf : List Obs) (stamp : Option Stamp)
          → c.state.fsm_state ≡ running
          → IsWellFormed mrpt c
          → IsSafe mrpt (execute mrpt engine c a sf stamp)
      unfolding execute
      execute-IsSafe c a sf stamp f v = elim (Option-cases c.state.pdf2d) [
        | inr (pdf, there) ↦ elim (Result-cases (engine.execute2 c.state.pf_options pdf a sf)) [
          | inl ((ps, st), done) ↦
              rw (there, execute, done)
                (
                  filled-IsWellFormed mrpt _ (stepped2-IsWellFormed c pdf ps st stamp there v),
                  λ e. cc,
                )
          | inr (x, thrown) ↦
              rw (there, execute, thrown)
                (v, λ k. laws.planar_step c.state.pf_options pdf a sf (cc))
        ]
        | inl no2 ↦ elim (Option-cases c.state.pdf3d) [
          | inl no3 ↦ cc (v.one_filter (ground arith), no2, no3)
          | inr (pdf, there) ↦ elim (Result-cases (engine.execute3 c.state.pf_options pdf a sf)) [
            | inl ((ps, st), done) ↦
                rw (no2, execute, there, done)
                  (
                    filled-IsWellFormed mrpt _ (stepped3-IsWellFormed c pdf ps st stamp there v),
                    λ e. cc,
                  )
            | inr (x, thrown) ↦
                rw (no2, execute, there, thrown)
                  (v, λ k. laws.spatial_step c.state.pf_options pdf a sf (cc))
          ]
        ]
      ]

      update_filter-IsSafe :
          (c : Core mrpt) (a : Action mrpt) (sf : List Obs) (stamp : Option Stamp)
          → c.state.fsm_state ≡ running
          → IsWellFormed mrpt c
          → IsSafe mrpt (update_filter mrpt engine c a sf stamp)
      unfolding update_filter refreshed
      update_filter-IsSafe c a sf stamp f v = elim (Result-cases (refresh_options mrpt c)) [
        | inr (e, failed) ↦ absurd (refresh_options-ok mrpt c f v failed)
        | inl (c', done) ↦
            let (v', f') = refresh_options-IsWellFormed mrpt c v done in
            let (w, g) = add_gnss_samples-IsWellFormed mrpt engine c' v' in
            rw (done, update_filter) (execute-IsSafe _ a sf stamp (g ∙ f' ∙ f) w)
      ]

      proceed-IsSafe :
          (a : Action mrpt) (sf : List Obs) (stamp : Option Stamp) (r : Core mrpt × Result Bool)
          → r.0.state.fsm_state ≡ running
          → IsWellFormed mrpt r.0
          → r.1 ≢ err null_pointer
          → IsSafe mrpt (proceed mrpt engine a sf stamp r)
      unfolding proceed
      proceed-IsSafe a sf stamp (c, err e) f v n = (v, λ k. n (ground arith))
      proceed-IsSafe a sf stamp (c, ok false) f v n = (v, λ k. cc)
      proceed-IsSafe a sf stamp (c, ok true) f v n = update_filter-IsSafe c a sf stamp f v

      process-IsSafe :
          (c : Core mrpt) (sf : List Obs) (stamp : Option Stamp)
          → c.state.fsm_state ≡ running
          → IsWellFormed mrpt c
          → IsSafe mrpt (process mrpt engine c sf stamp)
      unfolding process
      process-IsSafe c sf stamp f v =
          let m = build_action mrpt c sf stamp in
          let (w, n, g) =
            relocalize-IsWellFormed mrpt engine laws m.0 sf
              (build_action-IsWellFormed mrpt c sf stamp v) in
          proceed-IsSafe m.1 sf stamp (relocalize mrpt engine m.0 sf)
            (g ∙ build_action-fsm mrpt c sf stamp ∙ f) w n

      used-IsSafe :
          (c : Core mrpt) (sf : List Obs) (stamp : Option Stamp) (r : Result Bool)
          → c.state.fsm_state ≡ running
          → IsWellFormed mrpt c
          → r ≢ err null_pointer
          → IsSafe mrpt (used mrpt engine c sf stamp r)
      unfolding used
      used-IsSafe c sf stamp (err e) f v n = (v, λ k. n (ground arith))
      used-IsSafe c sf stamp (ok true) f v n = process-IsSafe c sf stamp f v
      used-IsSafe c sf stamp (ok false) f v n = (filled-IsWellFormed mrpt c v, λ k. cc)

      drained-IsSafe :
          (c : Core mrpt) (r : Result (Collected mrpt))
          → c.state.fsm_state ≡ running
          → IsWellFormed mrpt c
          → r ≢ err null_pointer
          → IsSafe mrpt (drained mrpt engine c r)
      unfolding drained without_queue
      drained-IsSafe c (err e) f v n = (v, λ k. n (ground arith))
      drained-IsSafe c (ok w) f v n =
          let c' = without_queue mrpt engine c in
          let v' : IsWellFormed mrpt c' = ground arith in
          used-IsSafe c' _ w.last_stamp _ f v' (
            can_use-no_null mrpt c' (sensory_frame mrpt w) v.used_layers
              (v.used_map (ground arith)))

      collect-no_null :
          (os : List (Option Obs)) → collect mrpt os (nothing_collected mrpt) ≢ err null_pointer
      collect-no_null os h =
          let (thrown, back) = collect-err_iff mrpt os in cc (back (thrown (null_pointer, h)), h)

      pub on_state_running-IsSafe :
          (c : Core mrpt)
          → c.state.fsm_state ≡ running
          → IsWellFormed mrpt c
          → IsSafe mrpt (on_state_running mrpt engine c)
      unfolding on_state_running
      on_state_running-IsSafe c f v = drained-IsSafe c _ f v (collect-no_null c.state.pending_obs)

    -- A conflict of classes makes the step throw, and changes nothing.
    pub on_state_running-conflict :
        (c : Core mrpt)
        → Conflict mrpt c.state.pending_obs
        → on_state_running mrpt engine c ≡ (c, err class_conflict)
    unfolding on_state_running drained
    on_state_running-conflict c k = rw ((collect-err_iff mrpt c.state.pending_obs).1 k)
