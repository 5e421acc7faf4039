-- ===== src/Rosbag/Synchronizer/Silent.antt =====
-- The synchronizer signals nothing, and blocks once its cache is full.
use mrpt_navigation.Base.{ℕ, zero, suc, true, false, Option, List, [], ◌∷◌, ◌≡◌, refl, arith}
use mrpt_navigation.Rosbag.Synchronizer.{
  Synchronizer, empty_slot, check, signal, check_and_signal, Signal, bind, bind_tf_sync, on_signal,
  on_signals,
}

module _ (Message Object : Type 0) where
  full-empty_slot :
      (i : ℕ) (ss : List (Option Message))
      → check Message Object ss ≡ true
      → empty_slot Message Object i ss ≡ false
  unfolding check empty_slot
  full-empty_slot i [] h = refl
  full-empty_slot zero (s ∷ ss) h = ground arith
  full-empty_slot (suc i) (s ∷ ss) h = ground (arith, full-empty_slot i ss)

  check_and_signal-silent :
      (s : Synchronizer Message Object) → check_and_signal Message Object s ≡ (s, [])
  unfolding check_and_signal signal
  check_and_signal-silent s = ground arith

  on_signal-silent :
      (e : Signal Message Object) (s : Synchronizer Message Object)
      → (on_signal Message Object e s).1 ≡ []
  unfolding on_signal check_and_signal signal
  on_signal-silent (bind i m) s = ground arith
  on_signal-silent bind_tf_sync s = ground arith

  on_signal-full :
      (e : Signal Message Object) (s : Synchronizer Message Object)
      → check Message Object s.cache ≡ true
      → on_signal Message Object e s ≡ (s, [])
  unfolding on_signal
  on_signal-full (bind i m) s h = rw (full-empty_slot i s.cache h) refl
  on_signal-full bind_tf_sync s h = check_and_signal-silent s

  -- Whatever comes, nothing is passed to the callback; and once every slot of the cache has a
  -- message, no event changes the synchronizer any more.
  pub on_signals-silent :
      (es : List (Signal Message Object)) (s : Synchronizer Message Object)
      → ((on_signals Message Object es s).1 ≡ [])
        × (check Message Object s.cache ≡ true → on_signals Message Object es s ≡ (s, []))
  unfolding on_signals
  on_signals-silent [] s = (refl, λ h. refl)
  on_signals-silent (e ∷ es) s = (
    rw (on_signal-silent e s, (on_signals-silent es (on_signal Message Object e s).0).0) refl,
    λ h. rw (on_signal-full e s h, (on_signals-silent es s).1 h) refl,
  )
