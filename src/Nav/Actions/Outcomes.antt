-- ===== src/Nav/Actions/Outcomes.antt =====
-- How actions end.
use mrpt_navigation.Base.{
  ℕ, zero, suc, Bool, true, false, Option, none, some, List, [], ◌∷◌, ◌≡◌, refl, sym, ap, ◌∙◌,
  arith, get_elem?, if◌then◌else◌, subst, ◌≢◌,
}
use mrpt_navigation.Nav.Library.{Mrpt}
use mrpt_navigation.Nav.Node.{Node}
use mrpt_navigation.Nav.Actions.{
  Status, success, error, cancelled, Action, has_failed, has_arrived, poll, poll_if_active, Server,
  update_at, poll_action,
}

-- How a turn of an action's loop ends, by what its thread sees: a cancel request, a failure, the
-- arrival.
abbrev decided : Bool → Bool → Bool → Option Status
decided c f h =
    if c then some cancelled else if f then some error else if h then some success else none

abbrev pub Decided : Bool → Bool → Bool → Option Status → Type 0
Decided c f h none = (c ≡ false) × (f ≡ false) × (h ≡ false)
Decided c f h (some cancelled) = c ≡ true
Decided c f h (some error) = (c ≡ false) × (f ≡ true)
Decided c f h (some success) = (c ≡ false) × (f ≡ false) × (h ≡ true)

decided-Decided : (c f h : Bool) → Decided c f h (decided c f h)
decided-Decided true f h = refl
decided-Decided false true h = (refl, refl)
decided-Decided false false true = (refl, refl, refl)
decided-Decided false false false = (refl, refl, refl)

module _ (mrpt : Mrpt) where
  -- The result of a turn agrees with what the thread of the action sees.
  abbrev pub Outcome : Node mrpt → Action → Option Status → Type 0
  Outcome n a r = Decided a.is_canceling (has_failed mrpt n) (has_arrived mrpt a.kind n) r

  poll-result :
      (n : Node mrpt) (a : Action)
      → (poll mrpt n a).result
        ≡ decided a.is_canceling (has_failed mrpt n) (has_arrived mrpt a.kind n)
  unfolding poll
  poll-result n a = ground arith

  poll-Outcome : (n : Node mrpt) (a : Action) → Outcome n a (poll mrpt n a).result
  poll-Outcome n a = subst (λ r. Outcome n a r) (sym (poll-result n a)) (decided-Decided _ _ _)

  update_at-get :
      (f : Action → Action) (i : ℕ) (l : List Action) {a : Action}
      → get_elem? l i ≡ some a
      → get_elem? (update_at mrpt f i l) i ≡ some (f a)
  unfolding update_at
  update_at-get f i [] h = cc
  update_at-get f zero (b ∷ l) h = ground arith
  update_at-get f (suc i) (b ∷ l) h = update_at-get f i l h

  update_at-others :
      (f : Action → Action) (i j : ℕ) (l : List Action)
      → j ≢ i
      → get_elem? (update_at mrpt f i l) j ≡ get_elem? l j
  unfolding update_at
  update_at-others f i j [] h = refl
  update_at-others f zero zero (b ∷ l) h = absurd (h refl)
  update_at-others f zero (suc j) (b ∷ l) h = refl
  update_at-others f (suc i) zero (b ∷ l) h = refl
  update_at-others f (suc i) (suc j) (b ∷ l) h = update_at-others f i j l (λ e. h (ap suc e))

  -- A turn of the loop of an active action leaves the node and all other actions alone, and the
  -- action is cancelled where its goal is being cancelled, else failed where the navigation has
  -- failed, else done where it has arrived, else goes on.
  pub poll_action-Outcome :
      (s : Server mrpt) (i : ℕ) (a : Action)
      → get_elem? s.actions i ≡ some a
      → a.result ≡ none
      → ((poll_action mrpt i s).node ≡ s.node)
        × (get_elem? (poll_action mrpt i s).actions i ≡ some (poll mrpt s.node a))
        × Outcome s.node a (poll mrpt s.node a).result
        × ((j : ℕ) → j ≢ i → get_elem? (poll_action mrpt i s).actions j ≡ get_elem? s.actions j)
  unfolding poll_action poll_if_active
  poll_action-Outcome s i a h k = (
    refl,
    update_at-get (poll_if_active mrpt s.node) i s.actions h ∙ rw (k, poll_if_active) refl,
    poll-Outcome s.node a,
    λ j d. update_at-others (poll_if_active mrpt s.node) i j s.actions d,
  )
