-- ===== src/Pf/Initialize/Initialized.antt =====
-- What `onStateUninitialized` and `onStateToBeInitialized` leave behind.
use mrpt_navigation.Base.{
  true, false, not, some, Result, ok, err, null_pointer, ◌≡◌, ◌≢◌, arith, has_value, Option-cases,
  inl, inr,
}
use mrpt_navigation.Pf.Library.{Mrpt}
use mrpt_navigation.Pf.Parameters.{MultiMap, Gaussian}
use mrpt_navigation.Pf.State.{uninitialized, to_be_initialized, Core, Engine, InternalState}
use mrpt_navigation.Pf.WellFormed.{IsWellFormed, IsSafe, request_has_icp}
use mrpt_navigation.Pf.Guess.{initial_guess}
use mrpt_navigation.Pf.Initialize.{
  is_ready, on_state_uninitialized, on_state_to_be_initialized, sampled, guessed, initial_samples,
  prepared, fill_last_result, reference_map, relocalization_request,
}

module _ (mrpt : Mrpt) where
  open mrpt use {Real}

  pub on_state_uninitialized-IsWellFormed :
      (c : Core mrpt)
      → c.state.fsm_state ≡ uninitialized
      → IsWellFormed mrpt c
      → IsWellFormed mrpt (on_state_uninitialized mrpt c)
  unfolding on_state_uninitialized is_ready
  on_state_uninitialized-IsWellFormed c u v = ground arith

  -- `internal_fill_state_lastResult` changes the last result only.
  pub fill_last_result-eq :
      (s : InternalState mrpt)
      → fill_last_result mrpt s ≡ record s { last_result = (fill_last_result mrpt s).last_result }
  unfolding fill_last_result
  fill_last_result-eq s = ground arith

  pub filled-IsWellFormed :
      (c : Core mrpt)
      → IsWellFormed mrpt c
      → IsWellFormed mrpt (record c { state = fill_last_result mrpt c.state })
  filled-IsWellFormed c v = ground (arith, fill_last_result-eq c.state)

  module _ (engine : Engine mrpt) where
    initial_samples-shape :
        (c : Core mrpt) (mm : MultiMap mrpt) (guess : Gaussian mrpt) (n : Real)
        → let s = (initial_samples mrpt engine c mm guess n).0 in
          (s.fsm_state ≡ c.state.fsm_state)
          × (s.metric_map ≡ c.state.metric_map)
          × (has_value c.state.pdf2d ≡ not c.params.use_se3_pf
              → has_value c.state.pdf3d ≡ c.params.use_se3_pf
              → has_value c.state.pending_se2 ≡ false
              → (has_value s.pdf2d ≡ not c.params.use_se3_pf)
                × (has_value s.pdf3d ≡ c.params.use_se3_pf)
                × (has_value s.pending_se2 ≡ true → c.params.use_se3_pf ≡ false))
          × (request_has_icp mrpt c.state.pending_se2 ≡ true
              → (mrpt.have_mola ≡ true → has_value c.params.relocalization_icp ≡ true)
              → request_has_icp mrpt s.pending_se2 ≡ true)
    unfolding initial_samples relocalization_request
    initial_samples-shape c mm guess n = ground arith

    initial_samples-no_null :
        (c : Core mrpt) (mm : MultiMap mrpt) (guess : Gaussian mrpt) (n : Real)
        → (initial_samples mrpt engine c mm guess n).1 ≢ err null_pointer
    unfolding initial_samples reference_map
    initial_samples-no_null c mm guess n = ground arith

    initial_guess-no_null :
        (c : Core mrpt)
        → has_value c.params.initial_pose ≡ true
        → initial_guess mrpt c ≢ err null_pointer
    unfolding initial_guess
    initial_guess-no_null c h = ground arith

    prepared-IsWellFormed :
        (c : Core mrpt) (mm : MultiMap mrpt)
        → c.params.metric_map ≡ some mm
        → IsWellFormed mrpt c
        → IsWellFormed mrpt (prepared mrpt engine c mm)
    unfolding prepared
    prepared-IsWellFormed c mm e v = ground arith

    sampled-IsWellFormed :
        (c : Core mrpt) (mm nn : MultiMap mrpt) (guess : Gaussian mrpt) (n : Real)
        → IsWellFormed mrpt (prepared mrpt engine c mm)
        → let c' = prepared mrpt engine c mm in
          IsWellFormed mrpt (record c' { state = (initial_samples mrpt engine c' nn guess n).0 })
    unfolding prepared
    sampled-IsWellFormed c mm nn guess n v =
        ground (arith, initial_samples-shape (prepared mrpt engine c mm) nn guess n)

    sampled-IsSafe :
        (c : Core mrpt) (r : InternalState mrpt × Result (Unit {0}))
        → IsWellFormed mrpt (record c { state = r.0 })
        → r.1 ≢ err null_pointer
        → IsSafe mrpt (sampled mrpt engine c r)
    unfolding sampled
    sampled-IsSafe c (s, ok _) v n = (filled-IsWellFormed (record c { state = s }) v, λ e. cc)
    sampled-IsSafe c (s, err e) v n = (v, n)

    guessed-IsSafe :
        (c : Core mrpt) (mm : MultiMap mrpt) (g : Result (Gaussian mrpt × Real))
        → IsWellFormed mrpt (prepared mrpt engine c mm)
        → g ≢ err null_pointer
        → IsSafe mrpt (guessed mrpt engine (prepared mrpt engine c mm) mm g)
    unfolding guessed
    guessed-IsSafe c mm (err e) v n = (v, λ k. n (ground arith))
    guessed-IsSafe c mm (ok (g, f)) v n =
        sampled-IsSafe (prepared mrpt engine c mm) _ (sampled-IsWellFormed c mm mm g _ v)
          (initial_samples-no_null (prepared mrpt engine c mm) mm g _)

    pub on_state_to_be_initialized-IsSafe :
        (c : Core mrpt)
        → c.state.fsm_state ≡ to_be_initialized
        → IsWellFormed mrpt c
        → IsSafe mrpt (on_state_to_be_initialized mrpt engine c)
    unfolding on_state_to_be_initialized
    on_state_to_be_initialized-IsSafe c f v = elim (Option-cases c.params.metric_map) [
      | inl missing ↦ cc (v.given_map (ground arith), missing)
      | inr (mm, given) ↦
          let v' = prepared-IsWellFormed c mm given v in
          rw (given, on_state_to_be_initialized)
            (guessed-IsSafe c mm _ v' (initial_guess-no_null (prepared mrpt engine c mm) v'.posed))
    ]
