-- ===== src/Pf/Initialize/Started.antt =====
-- Whatever the outcome of `onStateToBeInitialized`, the state is RUNNING afterwards.
use mrpt_navigation.Base.{[], Result, ok, err, ◌≡◌, refl, ◌∙◌, arith, Option-cases, inl, inr}
use mrpt_navigation.Pf.Library.{Mrpt}
use mrpt_navigation.Pf.Parameters.{Gaussian, MultiMap}
use mrpt_navigation.Pf.State.{Core, Engine, InternalState, running}
use mrpt_navigation.Pf.Guess.{initial_guess}
use mrpt_navigation.Pf.Initialize.{
  initial_samples, prepared, sampled, guessed, on_state_to_be_initialized,
}
use mrpt_navigation.Pf.Initialize.Initialized.{fill_last_result-eq}

module _ (mrpt : Mrpt) where
  open mrpt use {Real}

  module _ (engine : Engine mrpt) where
    initial_samples-fsm :
        (c : Core mrpt) (mm : MultiMap mrpt) (guess : Gaussian mrpt) (n : Real)
        → ((initial_samples mrpt engine c mm guess n).0.fsm_state ≡ c.state.fsm_state)
          × ((initial_samples mrpt engine c mm guess n).0.pending_obs ≡ c.state.pending_obs)
    unfolding initial_samples
    initial_samples-fsm c mm guess n = ground arith

    sampled-fsm :
        (c : Core mrpt) (r : InternalState mrpt × Result (Unit {0}))
        → ((sampled mrpt engine c r).0.state.fsm_state ≡ r.0.fsm_state)
          × ((sampled mrpt engine c r).0.state.pending_obs ≡ r.0.pending_obs)
    unfolding sampled
    sampled-fsm c (s, ok _) = rw (fill_last_result-eq mrpt s) (refl, refl)
    sampled-fsm c (s, err e) = (refl, refl)

    guessed-fsm :
        (c : Core mrpt) (mm : MultiMap mrpt) (r : Result (Gaussian mrpt × Real))
        → ((guessed mrpt engine c mm r).0.state.fsm_state ≡ c.state.fsm_state)
          × ((guessed mrpt engine c mm r).0.state.pending_obs ≡ c.state.pending_obs)
    unfolding guessed
    guessed-fsm c mm (err e) = (refl, refl)
    guessed-fsm c mm (ok (guess, factor)) =
        let (f, q) =
          initial_samples-fsm c mm guess (mrpt.times c.params.relocalize_num_sigmas factor) in
        let (g, r) = sampled-fsm c (
          initial_samples mrpt engine c mm guess
            (mrpt.times c.params.relocalize_num_sigmas factor)) in
        (g ∙ f, r ∙ q)

    -- Initialization ends in the state RUNNING with an empty queue even where it throws: it is not
    -- tried again, and the queued observations are lost.
    pub on_state_to_be_initialized-running :
        (c : Core mrpt)
        → ((on_state_to_be_initialized mrpt engine c).0.state.fsm_state ≡ running)
          × ((on_state_to_be_initialized mrpt engine c).0.state.pending_obs ≡ [])
    unfolding on_state_to_be_initialized prepared
    on_state_to_be_initialized-running c = elim (Option-cases c.params.metric_map) [
      | inl missing ↦ rw (missing, on_state_to_be_initialized) (refl, refl)
      | inr (mm, given) ↦
          rw (given, on_state_to_be_initialized)
            (guessed-fsm (prepared mrpt engine c mm) mm
              (initial_guess mrpt (prepared mrpt engine c mm)))
    ]
