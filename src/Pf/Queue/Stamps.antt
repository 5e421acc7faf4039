-- ===== src/Pf/Queue/Stamps.antt =====
-- How `input_queue_last_stamp` can fail.
use mrpt_navigation.Base.{Option, none, some, List, [], ◌∷◌, err, null_pointer, ◌≢◌}
use mrpt_navigation.Pf.Library.{Mrpt}
use mrpt_navigation.Pf.State.{Core}
use mrpt_navigation.Pf.Queue.{stamp_loop, input_queue_last_stamp}

module _ (mrpt : Mrpt) where
  open mrpt use {Obs, Stamp}

  stamp_loop-no_null :
      (os : List (Option Obs)) (last : Option Stamp) → stamp_loop mrpt os last ≢ err null_pointer
  unfolding stamp_loop
  stamp_loop-no_null [] last h = cc
  stamp_loop-no_null (none ∷ os) last h = cc
  stamp_loop-no_null (some o ∷ os) none h = stamp_loop-no_null os _ h
  stamp_loop-no_null (some o ∷ os) (some last) h = stamp_loop-no_null os _ h

  pub input_queue_last_stamp-no_null :
      (c : Core mrpt) → input_queue_last_stamp mrpt c ≢ err null_pointer
  unfolding input_queue_last_stamp
  input_queue_last_stamp-no_null c h = stamp_loop-no_null c.state.pending_obs none h
