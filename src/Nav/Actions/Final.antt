-- ===== src/Nav/Actions/Final.antt =====
-- An action that has ended keeps its result.
use mrpt_navigation.Base.{ℕ, zero, suc, Option, some, List, [], ◌∷◌, ◌++◌, ◌≡◌}
use mrpt_navigation.Nav.Library.{Mrpt}
use mrpt_navigation.Nav.Node.{Node}
use mrpt_navigation.Nav.Commands.{WaypointSequence}
use mrpt_navigation.Nav.Commands.Ended.{Quiet, Command, on_quiet, on_command}
use mrpt_navigation.Nav.Actions.{
  Status, Action, poll_if_active, Server, update_at, canceling, poll_action, accept_goal,
  accept_waypoints, request_cancel,
}

module _ (mrpt : Mrpt) where
  open mrpt use {Pose3}

  -- What can happen to the node: requests of action clients, turns of the actions' loops, and
  -- messages and timers.
  pub data Happening : Type 0 where
    goal_requested : Pose3 → Happening
    waypoints_requested : WaypointSequence mrpt → Option Pose3 → Happening
    cancel_requested : ℕ → Happening
    polled : ℕ → Happening
    commanded : Command mrpt → Happening
    quiet : Quiet mrpt → Happening

  pub happen : Happening → Server mrpt → Server mrpt
  happen (goal_requested target) s = accept_goal mrpt target s
  happen (waypoints_requested msg tf) s = accept_waypoints mrpt msg tf s
  happen (cancel_requested i) s = request_cancel mrpt i s
  happen (polled i) s = poll_action mrpt i s
  happen (commanded k) s = record s { node = on_command mrpt k s.node }
  happen (quiet q) s = record s { node = on_quiet mrpt q s.node }

  pub happen_all : List Happening → Server mrpt → Server mrpt
  happen_all [] s = s
  happen_all (h ∷ hs) s = happen_all hs (happen h s)

  -- The action `i` has ended with the status `r`.
  abbrev pub Ended : ℕ → Status → List Action → Type 0
  Ended i r [] = ⊥
  Ended zero r (a ∷ l) = a.result ≡ some r
  Ended (suc i) r (a ∷ l) = Ended i r l

  append-Ended : (i : ℕ) (r : Status) (l k : List Action) → Ended i r l → Ended i r (l ++ k)
  append-Ended i r [] k e = absurd e
  append-Ended zero r (a ∷ l) k e = e
  append-Ended (suc i) r (a ∷ l) k e = append-Ended i r l k e

  update_at-Ended :
      (f : Action → Action)
      → ((a : Action) (r : Status) → a.result ≡ some r → (f a).result ≡ some r)
      → (j i : ℕ) (r : Status) (l : List Action) → Ended i r l
      → Ended i r (update_at mrpt f j l)
  unfolding update_at
  update_at-Ended f k j i r [] e = e
  update_at-Ended f k zero zero r (a ∷ l) e = k a r e
  update_at-Ended f k zero (suc i) r (a ∷ l) e = e
  update_at-Ended f k (suc j) zero r (a ∷ l) e = e
  update_at-Ended f k (suc j) (suc i) r (a ∷ l) e = update_at-Ended f k j i r l e

  poll_if_active-final :
      (n : Node mrpt) (a : Action) (r : Status)
      → a.result ≡ some r
      → (poll_if_active mrpt n a).result ≡ some r
  unfolding poll_if_active
  poll_if_active-final n a r e = rw (e, poll_if_active) e

  happen-Ended :
      (h : Happening) (i : ℕ) (r : Status) (s : Server mrpt)
      → Ended i r s.actions
      → Ended i r (happen h s).actions
  unfolding happen accept_goal accept_waypoints request_cancel poll_action canceling
  happen-Ended (goal_requested target) i r s e = append-Ended i r s.actions _ e
  happen-Ended (waypoints_requested msg tf) i r s e = append-Ended i r s.actions _ e
  happen-Ended (cancel_requested j) i r s e = update_at-Ended _ (λ a q k. k) j i r s.actions e
  happen-Ended (polled j) i r s e =
      update_at-Ended (poll_if_active mrpt s.node) (poll_if_active-final s.node) j i r s.actions e
  happen-Ended (commanded k) i r s e = e
  happen-Ended (quiet q) i r s e = e

  -- An action that has ended with a status has ended with that status ever after, whatever goals,
  -- cancel requests, commands and messages follow.
  pub happen_all-Ended :
      (hs : List Happening) (i : ℕ) (r : Status) (s : Server mrpt)
      → Ended i r s.actions
      → Ended i r (happen_all hs s).actions
  unfolding happen_all
  happen_all-Ended [] i r s e = e
  happen_all-Ended (h ∷ hs) i r s e = happen_all-Ended hs i r (happen h s) (happen-Ended h i r s e)
