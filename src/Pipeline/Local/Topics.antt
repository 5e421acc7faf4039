-- ===== src/Pipeline/Local/Topics.antt =====
-- `one_observation_per_topic`: which observations are kept.
use Prim.Native.String.{String}
use mrpt_navigation.Base.{
  ℕ, suc, ◌≤◌, same_text_iff, true, false, ◌||◌, Option, none, some, List, [], ◌∷◌, ◌≡◌, refl, sym,
  ap, ◌∙◌, arith, Bool-cases, inl, inr, same_text, if◌then◌else◌,
}
use mrpt_navigation.Pipeline.Local.{
  Mrpt, ObsList, InfoPerTimeStep, found_before, keep_first, one_per_topic,
}

module _ (mrpt : Mrpt) where
  open mrpt use {Time}

  -- The first observation of a topic, which is the oldest one in a history.
  abbrev pub oldest : String → ObsList mrpt → Option (Time × InfoPerTimeStep mrpt)
  oldest s [] = none
  oldest s ((t, ipt) ∷ obs) =
      let later = oldest s obs in if same_text s ipt.source_topic then some (t, ipt) else later

  -- How many observations of a topic there are.
  abbrev pub count : String → ObsList mrpt → ℕ
  count s [] = 0
  count s ((t, ipt) ∷ obs) =
      let others = count s obs in if same_text s ipt.source_topic then suc others else others

  found_before-same :
      (s t : String) (met : List String)
      → same_text s t ≡ true
      → found_before mrpt t met ≡ found_before mrpt s met
  found_before-same s t met h = ap (λ u. found_before mrpt u met) (sym ((same_text_iff s t).0 h))

  found_before-cons :
      (s t : String) (met : List String)
      → same_text s t ≡ false
      → found_before mrpt s (t ∷ met) ≡ found_before mrpt s met
  unfolding found_before
  found_before-cons s t met h = ap (λ b. b || found_before mrpt s met) h

  found_before-here :
      (s t : String) (met : List String)
      → same_text s t ≡ true
      → found_before mrpt s (t ∷ met) ≡ true
  unfolding found_before
  found_before-here s t met h = ap (λ b. b || found_before mrpt s met) h

  keep_first-none :
      (met : List String) (obs : ObsList mrpt) (s : String)
      → found_before mrpt s met ≡ true
      → count s (keep_first mrpt met obs) ≡ 0
  unfolding keep_first
  keep_first-none met [] s h = refl
  keep_first-none met ((t, ipt) ∷ obs) s h =
      elim (Bool-cases (found_before mrpt ipt.source_topic met)) [
        | inl f ↦ rw (f, keep_first) (keep_first-none met obs s h)
        | inr f ↦ elim (Bool-cases (same_text s ipt.source_topic)) [
          | inl same ↦ cc (found_before-same s ipt.source_topic met same, f, h)
          | inr other ↦
              rw (f, keep_first, other, count)
                (keep_first-none (ipt.source_topic ∷ met) obs s
                  (found_before-cons s ipt.source_topic met other ∙ h))
        ]
      ]

  -- A topic that has not been met keeps its oldest observation, alone.
  keep_first-new :
      (met : List String) (obs : ObsList mrpt) (s : String)
      → found_before mrpt s met ≡ false
      → (oldest s (keep_first mrpt met obs) ≡ oldest s obs)
        × (count s (keep_first mrpt met obs) ≤ 1)
  unfolding keep_first
  keep_first-new met [] s h = (refl, omega arith)
  keep_first-new met ((t, ipt) ∷ obs) s h = elim (Bool-cases (same_text s ipt.source_topic)) [
    | inl same ↦
        let f : found_before mrpt ipt.source_topic met ≡ false =
          found_before-same s ipt.source_topic met same ∙ h in
        rw (f, keep_first, same, oldest, count)
          (
            refl,
            omega (
              arith,
              keep_first-none (ipt.source_topic ∷ met) obs s
                  (found_before-here s ipt.source_topic met same),
            ),
          )
    | inr other ↦ elim (Bool-cases (found_before mrpt ipt.source_topic met)) [
      | inl f ↦ rw (f, keep_first, other, oldest) (keep_first-new met obs s h)
      | inr f ↦
          rw (f, keep_first, other, oldest, count)
            (keep_first-new (ipt.source_topic ∷ met) obs s
              (found_before-cons s ipt.source_topic met other ∙ h))
    ]
  ]

  -- With one observation per topic, each topic keeps the first of its observations, the oldest one
  -- in a history, and no other.
  pub one_per_topic-oldest :
      (obs : ObsList mrpt) (s : String)
      → (oldest s (one_per_topic mrpt obs) ≡ oldest s obs) × (count s (one_per_topic mrpt obs) ≤ 1)
  unfolding one_per_topic found_before
  one_per_topic-oldest obs s = keep_first-new [] obs s refl
