-- ===== src/Nav/Node/Verdicts.antt =====
-- What the callbacks of one engine call leave in the node.
use mrpt_navigation.Base.{
  Bool, true, false, Option, none, some, List, [], ◌∷◌, ◌++◌, ◌≡◌, refl, sym, ap, ◌∙◌, append_assoc,
}
use mrpt_navigation.Nav.Library.{
  Mrpt, Callback, start_event, end_event, waypoint_reached, new_waypoint_target, end_due_to_error,
  way_seems_blocked, apparent_collision, cannot_get_closer, change_speeds, stop,
}
use mrpt_navigation.Nav.Node.{
  Event, failed, no_closer, ended, Node, on_callback, on_callbacks, publish_event_message,
  send_speeds, set_ended, ends, engine_call,
}

-- An event that ends a navigation, with its verdict.
abbrev pub verdict : Event → Option Bool
verdict ended = some true
verdict failed = some false
verdict no_closer = some false
verdict _ = none

abbrev pub or_before : Option Bool → Option Bool → Option Bool
or_before none before = before
or_before (some b) before = some b

-- The verdict of the last event that ends a navigation, `before` if there is none.
abbrev pub last_verdict : List Event → Option Bool → Option Bool
last_verdict [] before = before
last_verdict (e ∷ es) before = last_verdict es (or_before (verdict e) before)

last_verdict-snoc :
    (es : List Event) (e : Event) (b : Option Bool)
    → last_verdict (es ++ e ∷ []) b ≡ or_before (verdict e) (last_verdict es b)
last_verdict-snoc [] e b = refl
last_verdict-snoc (x ∷ es) e b = last_verdict-snoc es e (or_before (verdict x) b)

-- Events published after `old`, and a flag that is the verdict of those, `before` without one.
abbrev pub Agreed : List Event → Option Bool → List Event → Option Bool → Type 0
Agreed old before events flag =
    (new : List Event) × (events ≡ old ++ new) × (flag ≡ last_verdict new before)

Agreed-snoc :
    (old : List Event) (before : Option Bool) (events : List Event) (e : Event) (flag : Option Bool)
    → Agreed old before events flag
    → Agreed old before (events ++ e ∷ []) (or_before (verdict e) flag)
Agreed-snoc old before events e flag (new, a, b) = (
  new ++ e ∷ [],
  ap (λ l. l ++ e ∷ []) a ∙ append_assoc old new (e ∷ []),
  ap (or_before (verdict e)) b ∙ sym (last_verdict-snoc new e before),
)

module _ (mrpt : Mrpt) where
  open mrpt use {Real}

  abbrev pub Agrees : List Event → Option Bool → Node mrpt → Type 0
  Agrees old before n = Agreed old before n.events n.current_nav_ended_successfully

  on_callback-Agrees :
      (old : List Event) (before : Option Bool) (c : Callback Real) (n : Node mrpt)
      → Agrees old before n
      → Agrees old before (on_callback mrpt c n)
  unfolding on_callback publish_event_message send_speeds set_ended ends
  on_callback-Agrees old before start_event n a =
      Agreed-snoc old before n.events _ n.current_nav_ended_successfully a
  on_callback-Agrees old before end_event n a =
      Agreed-snoc old before n.events _ n.current_nav_ended_successfully a
  on_callback-Agrees old before (waypoint_reached i true) n a =
      Agreed-snoc old before n.events _ n.current_nav_ended_successfully a
  on_callback-Agrees old before (waypoint_reached i false) n a =
      Agreed-snoc old before n.events _ n.current_nav_ended_successfully a
  on_callback-Agrees old before (new_waypoint_target i) n a =
      Agreed-snoc old before n.events _ n.current_nav_ended_successfully a
  on_callback-Agrees old before end_due_to_error n a =
      Agreed-snoc old before n.events _ n.current_nav_ended_successfully a
  on_callback-Agrees old before way_seems_blocked n a =
      Agreed-snoc old before n.events _ n.current_nav_ended_successfully a
  on_callback-Agrees old before apparent_collision n a =
      Agreed-snoc old before n.events _ n.current_nav_ended_successfully a
  on_callback-Agrees old before cannot_get_closer n a =
      Agreed-snoc old before n.events _ n.current_nav_ended_successfully a
  on_callback-Agrees old before (change_speeds v w) n a = a
  on_callback-Agrees old before (stop is_emergency) n a = a

  pub on_callbacks-Agrees :
      (old : List Event) (before : Option Bool) (cs : List (Callback Real)) (n : Node mrpt)
      → Agrees old before n
      → Agrees old before (on_callbacks mrpt cs n)
  unfolding on_callbacks
  on_callbacks-Agrees old before [] n a = a
  on_callbacks-Agrees old before (c ∷ cs) n a =
      on_callbacks-Agrees old before cs (on_callback mrpt c n) (on_callback-Agrees old before c n a)

  pub engine_call-Agrees :
      (old : List Event) (before : Option Bool) (r : mrpt.Engine × List (Callback Real))
      (n : Node mrpt)
      → Agrees old before n
      → Agrees old before (engine_call mrpt r n)
  unfolding engine_call
  engine_call-Agrees old before (e, cs) n a =
      on_callbacks-Agrees old before cs (record n { rnav_engine = e }) a
