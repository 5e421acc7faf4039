-- ===== src/Pipeline/Local/History.antt =====
-- The history of observations: its order, and what a purge keeps.
use Prim.Native.String.{String}
use mrpt_navigation.Base.{
  not, none, some, List, [], ◌∷◌, ◌≡◌, refl, sym, select, Option-cases, inl, inr, subst,
}
use mrpt_navigation.Base.StdMap.{Key}
use mrpt_navigation.Base.StdMultimap.{
  last_key, IsOrdered, add-IsOrdered, from_lower_bound-IsOrdered, from_lower_bound-select,
}
use mrpt_navigation.Pipeline.Local.{
  Mrpt, Transform, found, extrapolation, other_exception, ObsList, Node, insert_obs,
  on_new_sensor_laser_2d, on_new_sensor_pointcloud, purged, on_do_publish,
}

module _ (mrpt : Mrpt) where
  open mrpt use {Time, time_key, minus, Pose, Scan, Cloud}

  instance abbrev order : Key Time
  order = time_key

  -- A message, or the timer.
  pub data Event : Type 0 where
    scan_received : Scan → String → Transform Pose → Transform Pose → Event
    cloud_received : Cloud → String → Transform Pose → Transform Pose → Event
    timer : Transform Pose → Event

  pub on_event : Event → Node mrpt → Node mrpt
  on_event (scan_received s topic sensor robot) n =
      on_new_sensor_laser_2d mrpt s topic sensor robot n
  on_event (cloud_received c topic sensor robot) n =
      on_new_sensor_pointcloud mrpt c topic sensor robot n
  on_event (timer tf) n = (on_do_publish mrpt tf n).0

  pub on_events : List Event → Node mrpt → Node mrpt
  on_events [] n = n
  on_events (e ∷ es) n = on_events es (on_event e n)

  purged-IsOrdered : (w : Time) (obs : ObsList mrpt) → IsOrdered obs → IsOrdered (purged mrpt w obs)
  unfolding purged
  purged-IsOrdered w obs s = elim (Option-cases (last_key obs)) [
    | inl e ↦ rw (e, purged) s
    | inr (last, e) ↦ rw (e, purged) (from_lower_bound-IsOrdered (minus last w) obs s)
  ]

  on_event-IsOrdered :
      (e : Event) (n : Node mrpt) → IsOrdered n.hist_obs → IsOrdered (on_event e n).hist_obs
  unfolding on_event on_new_sensor_laser_2d on_new_sensor_pointcloud insert_obs on_do_publish
  on_event-IsOrdered (scan_received c topic (found p) (found q)) n s =
      add-IsOrdered _ _ n.hist_obs s
  on_event-IsOrdered (scan_received c topic (found p) extrapolation) n s = s
  on_event-IsOrdered (scan_received c topic (found p) other_exception) n s = s
  on_event-IsOrdered (scan_received c topic extrapolation r) n s = s
  on_event-IsOrdered (scan_received c topic other_exception r) n s = s
  on_event-IsOrdered (cloud_received c topic (found p) (found q)) n s =
      add-IsOrdered _ _ n.hist_obs s
  on_event-IsOrdered (cloud_received c topic (found p) extrapolation) n s = s
  on_event-IsOrdered (cloud_received c topic (found p) other_exception) n s = s
  on_event-IsOrdered (cloud_received c topic extrapolation r) n s = s
  on_event-IsOrdered (cloud_received c topic other_exception r) n s = s
  on_event-IsOrdered (timer tf) n s = purged-IsOrdered n.time_window n.hist_obs s

  on_events-IsOrdered :
      (es : List Event) (n : Node mrpt) → IsOrdered n.hist_obs → IsOrdered (on_events es n).hist_obs
  unfolding on_events
  on_events-IsOrdered [] n s = s
  on_events-IsOrdered (e ∷ es) n s =
      on_events-IsOrdered es (on_event e n) (on_event-IsOrdered e n s)

  -- What the time window leaves of a history.
  abbrev pub in_window : Time → ObsList mrpt → ObsList mrpt
  in_window w obs = elim (last_key obs) [
    | none ↦ []
    | some last ↦ select (λ e. not (order.lt e.0 (minus last w))) obs
  ]

  last_key-none : (obs : ObsList mrpt) → last_key obs ≡ none → obs ≡ []
  last_key-none [] h = refl
  last_key-none ((t, i) ∷ obs) h = elim (Option-cases (last_key obs)) [
    | inl e ↦ cc (h, e)
    | inr (k, e) ↦ cc (h, e)
  ]

  purged-in_window :
      (w : Time) (obs : ObsList mrpt) → IsOrdered obs → purged mrpt w obs ≡ in_window w obs
  unfolding purged
  purged-in_window w obs s = elim (Option-cases (last_key obs)) [
    | inl e ↦ rw (e, purged, in_window) (last_key-none obs e)
    | inr (last, e) ↦ rw (e, purged, in_window) (from_lower_bound-select (minus last w) obs s)
  ]

  -- However messages and timers have come, the history is in the order of its time stamps, and the
  -- next timer keeps those of its observations that are no older than the time window before the
  -- latest one, and no other.
  pub on_do_publish-history :
      (es : List Event) (fresh : Node mrpt) (tf : Transform Pose)
      → fresh.hist_obs ≡ []
      → let n = on_events es fresh in
        IsOrdered n.hist_obs
        × ((on_do_publish mrpt tf n).0.hist_obs ≡ in_window n.time_window n.hist_obs)
  unfolding on_do_publish
  on_do_publish-history es fresh tf e =
      let s = on_events-IsOrdered es fresh (subst IsOrdered (sym e) tt) in
      (s, purged-in_window _ _ s)
