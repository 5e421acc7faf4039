-- ===== src/Pf/Window/Shown.antt =====
-- What the debug window shows after a sequence of updates.
use mrpt_navigation.Base.{
  Bool, true, false, ◌&&◌, Option, none, List, [], ◌∷◌, ◌++◌, Result, ok, err, null_pointer, ◌≡◌,
  inl, inr, Bool-cases, ◌↔◌, ap, sym, subst, ◌∙◌, arith,
}
use mrpt_navigation.Pf.Library.{Mrpt}
use mrpt_navigation.Pf.Parameters.{MultiMap}
use mrpt_navigation.Pf.State.{Core}
use mrpt_navigation.Pf.Estimate.{Graphics}
use mrpt_navigation.Pf.Window.{Gui, update_gui}
use mrpt_navigation.Pf.Window.Kinds.{of_kind}
use mrpt_navigation.Pf.Window.Updated.{Displays, first-Displays, again-Displays, other-null}

module _ (mrpt : Mrpt) (graphics : Graphics mrpt) where
  open mrpt use {Obs}
  open graphics use {has_wxwidgets, Points, points_of_frame}

  abbrev pub Update : Type 0
  Update = Core mrpt × List Obs

  abbrev pub all_of_kind : Bool → List Update → Bool
  all_of_kind k [] = true
  all_of_kind k (u ∷ us) = of_kind mrpt graphics k u.0 && all_of_kind k us

  abbrev pub all_enabled : List Update → Bool
  all_enabled [] = true
  all_enabled (u ∷ us) = u.0.params.gui_enable && all_enabled us

  abbrev pub then_update :
      (Gui mrpt graphics → Gui mrpt graphics × Result (Unit {0}))
      → Gui mrpt graphics × Result (Unit {0})
      → Gui mrpt graphics × Result (Unit {0})
  then_update rest (g, err e) = (g, err e)
  then_update rest (g, ok _) = rest g

  -- Updates up to the first that ends the process.
  abbrev pub update_all : List Update → Gui mrpt graphics → Gui mrpt graphics × Result (Unit {0})
  update_all [] g = (g, ok tt)
  update_all ((c, sf) ∷ us) g = then_update (update_all us) (update_gui mrpt graphics c sf g)

  -- The frame of the last update, if there is one.
  abbrev pub last_frame : List Obs → List Update → List Obs
  last_frame sf [] = sf
  last_frame sf (u ∷ us) = last_frame u.1 us

  then_update-err :
      (rest : Gui mrpt graphics → Gui mrpt graphics × Result (Unit {0}))
      (o : Gui mrpt graphics × Result (Unit {0}))
      → o.1 ≡ err null_pointer
      → (then_update rest o).1 ≡ err null_pointer
  then_update-err rest (g, err e) h = h
  then_update-err rest (g, ok _) h = ground (arith, h)

  -- Another kind of filter ends the updates.
  updates_null :
      (later k : Bool) (m : Option (MultiMap mrpt)) (c : Core mrpt) (drawn : Points) (sf : List Obs)
      (us : List Update) (g : Gui mrpt graphics)
      → has_wxwidgets ≡ true
      → all_enabled us ≡ true
      → Displays mrpt graphics later k m c drawn sf g
      → all_of_kind k us ≡ false
      → (update_all us g).1 ≡ err null_pointer
  updates_null later k m c drawn sf [] g built enabled shows kind = ground (arith, kind)
  updates_null later k m c drawn sf ((c', sf') ∷ us) g built enabled shows kind =
      elim (Bool-cases (of_kind mrpt graphics k c')) [
        | inr other ↦ then_update-err (update_all us) (update_gui mrpt graphics c' sf' g) (
            other-null mrpt graphics later k m c c' drawn sf sf' g built (ground arith) shows other)
        | inl same ↦
            let (g', updated, shows') =
              again-Displays mrpt graphics later k m c c' drawn sf sf' g built (ground arith) shows
                same in
            ap (λ o. (then_update (update_all us) o).1) updated
            ∙ updates_null true k m c' (points_of_frame sf) sf' us g' built (ground arith) shows'
                (ground arith)
      ]

  -- Filters of one kind are drawn to the last one.
  updates-Displays :
      (later k : Bool) (m : Option (MultiMap mrpt)) (c : Core mrpt) (drawn : Points) (sf : List Obs)
      (middle : List Update) (final : Update) (g : Gui mrpt graphics)
      → has_wxwidgets ≡ true
      → all_enabled (middle ++ final ∷ []) ≡ true
      → Displays mrpt graphics later k m c drawn sf g
      → all_of_kind k (middle ++ final ∷ []) ≡ true
      → (g' : Gui mrpt graphics) × (update_all (middle ++ final ∷ []) g ≡ (g', ok tt))
        × Displays mrpt graphics true k m final.0
            (points_of_frame (last_frame sf middle))
            final.1
            g'
  updates-Displays later k m c drawn sf [] (c', sf') g built enabled shows kind =
      let (g', updated, shows') =
        again-Displays mrpt graphics later k m c c' drawn sf sf' g built (ground arith) shows
          (ground arith) in
      (g', ap (then_update (update_all [])) updated, shows')
  updates-Displays later k m c drawn sf ((c', sf') ∷ us) final g built enabled shows kind =
      let (g', updated, shows') =
        again-Displays mrpt graphics later k m c c' drawn sf sf' g built (ground arith) shows
          (ground arith) in
      let (g'', rest, displays) =
        updates-Displays true k m c' (points_of_frame sf) sf' us final g' built (ground arith)
          shows' (ground arith) in
      (g'', ap (then_update (update_all (us ++ final ∷ []))) updated ∙ rest, displays)

  null-ne-ok : ◌≡◌ {A = Result (Unit {0})} (err null_pointer) (ok tt) → ⊥
  null-ne-ok h = ground (arith, h)

  -- With the window enabled, its first update with a planar or a spatial filter and any updates
  -- after it: they end in a null pointer exactly if a later filter is missing or of the other kind.
  -- Otherwise the scene has, on the map of the first update, one ellipsoid and one set of particles,
  -- the last core's, and one cloud, at the last mean, of the points of the frame before the last; the
  -- camera follows the robot.
  pub update_all-shown :
      (k : Bool) (first final : Update) (middle : List Update) (g : Gui mrpt graphics)
      → has_wxwidgets ≡ true
      → all_enabled (first ∷ middle ++ final ∷ []) ≡ true
      → g.win3d ≡ none
      → of_kind mrpt graphics k first.0 ≡ true
      → let (g', outcome) = update_all (first ∷ middle ++ final ∷ []) g in
        ((outcome ≡ err null_pointer) ↔ (all_of_kind k (middle ++ final ∷ []) ≡ false))
        × (all_of_kind k (middle ++ final ∷ []) ≡ true
            → (outcome ≡ ok tt)
              × Displays mrpt graphics true k first.0.state.metric_map final.0
                  (points_of_frame (last_frame first.1 middle))
                  final.1
                  g')
  update_all-shown k (c, sf) final middle g built enabled shut kind =
      let rest = middle ++ final ∷ [] in
      let (g', updated, shows) =
        first-Displays mrpt graphics k c sf g built (ground arith) shut kind in
      let through = ap (then_update (update_all rest)) updated in
      let lasts = λ (same : all_of_kind k rest ≡ true).
        updates-Displays false k c.state.metric_map c g.last_map sf middle final g' built
          (ground arith) shows same in
      (
        (
          λ null. elim (Bool-cases (all_of_kind k rest)) [
            | inr other ↦ other
            | inl same ↦ absurd (null-ne-ok (sym null ∙ ap (λ o. o.1) (through ∙ (lasts same).1)))
          ],
          λ other.
              ap (λ o. o.1) through
              ∙ updates_null false k c.state.metric_map c g.last_map sf rest g' built (ground arith)
                  shows other,
        ),
        λ same.
            let (g'', rested, displays) = lasts same in
            let all = sym (through ∙ rested) in
            (
              ap (λ o. o.1) (through ∙ rested),
              subst
                  (λ o.
                    Displays mrpt graphics true k c.state.metric_map final.0
                      (points_of_frame (last_frame sf middle)) final.1 o.0)
                  all displays,
            ),
      )
