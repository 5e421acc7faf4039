-- ===== src/Rosbag/Synchronizer.antt =====
-- The class template `RosSynchronizer` of rosbag2rawlog.cpp, whose only use is compiled out. Its cache
-- is a tuple of messages, here a list of slots.
pub mod Silent
use mrpt_navigation.Base.{
  ℕ, zero, suc, Bool, true, false, ◌&&◌, Option, none, some, List, [], ◌∷◌, ◌++◌, has_value,
  if◌then◌else◌,
}

module _ (Message Object : Type 0) where
  pub record Synchronizer : Type 0 where
    pub cache : List (Option Message)

  set_slot : ℕ → Message → List (Option Message) → List (Option Message)
  set_slot i m [] = []
  set_slot zero m (s ∷ ss) = some m ∷ ss
  set_slot (suc i) m (s ∷ ss) = s ∷ set_slot i m ss

  empty_slot : ℕ → List (Option Message) → Bool
  empty_slot i [] = false
  empty_slot zero (s ∷ ss) = if has_value s then false else true
  empty_slot (suc i) (s ∷ ss) = empty_slot i ss

  pub check : List (Option Message) → Bool
  check [] = true
  check (s ∷ ss) = has_value s && check ss

  -- The overload without arguments, which takes no part in the template `signal(index_sequence)`.
  signal : Synchronizer → Synchronizer × List Object
  signal s = (s, [])

  pub check_and_signal : Synchronizer → Synchronizer × List Object
  unfolding check signal
  check_and_signal s = if check s.cache then signal s else (s, [])

  -- A message of one of the topics, which is kept if its slot is free, or one of /tf.
  pub data Signal : Type 0 where
    bind : ℕ → Message → Signal
    bind_tf_sync : Signal

  pub on_signal : Signal → Synchronizer → Synchronizer × List Object
  unfolding check_and_signal set_slot empty_slot
  on_signal (bind i m) s =
      if empty_slot i s.cache
      then check_and_signal (record s { cache = set_slot i m s.cache })
      else (s, [])
  on_signal bind_tf_sync s = check_and_signal s

  pub on_signals : List Signal → Synchronizer → Synchronizer × List Object
  unfolding on_signal
  on_signals [] s = (s, [])
  on_signals (e ∷ es) s =
      let (s', obs) = on_signal e s in let (s'', rest) = on_signals es s' in (s'', obs ++ rest)
