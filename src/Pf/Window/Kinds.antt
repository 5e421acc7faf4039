-- ===== src/Pf/Window/Kinds.antt =====
-- Which filter a core has, and its estimate.
use mrpt_navigation.Base.{
  Bool, true, false, not, ◌&&◌, ◌||◌, Option, none, some, ok, err, null_pointer, has_value, ◌≡◌,
  ◌⊎◌, inl, inr, refl, arith,
}
use mrpt_navigation.Pf.Library.{Mrpt}
use mrpt_navigation.Pf.State.{Core, Pdf}
use mrpt_navigation.Pf.Estimate.{Graphics, Estimate, estimate_of, estimated_pose}
use mrpt_navigation.Pf.Window.Drawn.{is_planar}

module _ (mrpt : Mrpt) (graphics : Graphics mrpt) where
  open mrpt use {Obs}
  open graphics use {has_wxwidgets, Points, points_of_frame}

  -- The core has a filter of the given kind, planar or spatial, that is drawn.
  abbrev pub of_kind : Bool → Core mrpt → Bool
  of_kind true c = has_value c.state.pdf2d
  of_kind false c = not (has_value c.state.pdf2d) && has_value c.state.pdf3d

  pub of_kind-planar :
      (k : Bool) (c : Core mrpt) → of_kind k c ≡ true → is_planar mrpt graphics c ≡ k
  of_kind-planar true c h = h
  of_kind-planar false c h = ground arith

  no_kind :
      (k : Bool) (c : Core mrpt)
      → has_value c.state.pdf2d ≡ false
      → has_value c.state.pdf3d ≡ false
      → of_kind k c ≡ true
      → ⊥
  no_kind true c flat high h = ground arith
  no_kind false c flat high h = ground arith

  other_kind :
      (k : Bool) (c : Core mrpt)
      → of_kind k c ≡ false
      → (has_value c.state.pdf2d || has_value c.state.pdf3d) ≡ true
      → is_planar mrpt graphics c ≡ not k
  other_kind true c h some_kind = h
  other_kind false c h some_kind = ground arith

  -- Without an estimate there is no filter.
  estimate_of-cases :
      (planar : Option (Pdf mrpt mrpt.Pose2)) (spatial : Option (Pdf mrpt mrpt.Pose3))
      → ((e : Estimate mrpt) × (estimate_of mrpt graphics planar spatial ≡ ok e)
          × ((has_value planar || has_value spatial) ≡ true))
        ⊎ ((estimate_of mrpt graphics planar spatial ≡ err null_pointer)
            × (has_value planar ≡ false)
            × (has_value spatial ≡ false))
  unfolding estimate_of
  estimate_of-cases (some pdf) spatial = inl (_, refl, refl)
  estimate_of-cases none (some pdf) = inl (_, refl, refl)
  estimate_of-cases none none = inr (refl, refl, refl)

  pub of_kind-estimated :
      (k : Bool) (c : Core mrpt)
      → of_kind k c ≡ true
      → (e : Estimate mrpt) × (estimated_pose mrpt graphics c ≡ ok e)
  unfolding estimated_pose
  of_kind-estimated k c h = elim (estimate_of-cases c.state.pdf2d c.state.pdf3d) [
    | inl (e, there, some_kind) ↦ (e, there)
    | inr (_, flat, high) ↦ absurd (no_kind k c flat high h)
  ]

  pub not-of_kind :
      (k : Bool) (c : Core mrpt)
      → of_kind k c ≡ false
      → (estimated_pose mrpt graphics c ≡ err null_pointer)
        ⊎ ((e : Estimate mrpt) × (estimated_pose mrpt graphics c ≡ ok e)
            × (is_planar mrpt graphics c ≡ not k))
  unfolding estimated_pose
  not-of_kind k c h = elim (estimate_of-cases c.state.pdf2d c.state.pdf3d) [
    | inr (missing, _, _) ↦ inl missing
    | inl (e, there, some_kind) ↦ inr (e, there, other_kind k c h some_kind)
  ]
