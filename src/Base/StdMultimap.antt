-- ===== src/Base/StdMultimap.antt =====
-- `std::multimap`: an association list kept in the order of its keys, equal keys in the order of
-- their insertion.
use mrpt_navigation.Base.Tests.{if◌then◌else◌, Bool-cases}
use mrpt_navigation.Base.Lists.{select}
use mrpt_navigation.Base.StdMap.{Key, lt_asymm}
use mathlib.Core.Path.{◌≡◌, refl, sym, ap}
use mathlib.Core.Logic.{inl, inr}
use mathlib.Core.Bool.{false, not}
use mathlib.Core.Option.{Option, none, some}
use mathlib.Core.List.{List, [], ◌∷◌}

-- Not being before is transitive.
not_before_trans :
    {K : Type 0} ⦃o : Key K⦄ (a b c : K) → o.lt b a ≡ false → o.lt c b ≡ false → o.lt c a ≡ false
not_before_trans ⦃o = o⦄ a b c h k = elim (Bool-cases (o.lt c a)) [
  | inr done ↦ done
  | inl c_a ↦ elim (Bool-cases (o.beq b a)) [
    | inl same ↦ cc ((o.beq_iff b a).0 same, k)
    | inr other ↦ cc (o.lt_trans c a b c_a (o.lt_total b a other h), k)
  ]
]

module _ {K V : Type 0} ⦃o : Key K⦄ where
  -- `insert`, after the entries with the same key
  abbrev pub add : K → V → List (K × V) → List (K × V)
  add k v [] = (k, v) ∷ []
  add k v ((j, w) ∷ m) =
      let rest = add k v m in if o.lt k j then (k, v) ∷ (j, w) ∷ m else (j, w) ∷ rest

  -- What is left after `erase(begin(), lower_bound(k))`.
  abbrev pub from_lower_bound : K → List (K × V) → List (K × V)
  from_lower_bound k [] = []
  from_lower_bound k ((j, w) ∷ m) =
      let rest = from_lower_bound k m in if o.lt j k then rest else (j, w) ∷ m

  -- The key of `rbegin()`.
  abbrev pub last_key : List (K × V) → Option K
  last_key [] = none
  last_key ((j, w) ∷ m) = elim (last_key m) [ none ↦ some j | some k ↦ some k ]

  -- No key of the map is before `k`.
  abbrev pub NoneBefore : K → List (K × V) → Type 0
  NoneBefore k [] = Unit
  NoneBefore k ((j, w) ∷ m) = (o.lt j k ≡ false) × NoneBefore k m

  abbrev pub IsOrdered : List (K × V) → Type 0
  IsOrdered [] = Unit
  IsOrdered ((j, w) ∷ m) = NoneBefore j m × IsOrdered m

  add-NoneBefore :
      (a k : K) (v : V) (m : List (K × V))
      → o.lt k a ≡ false
      → NoneBefore a m
      → NoneBefore a (add k v m)
  add-NoneBefore a k v [] h n = (h, tt)
  add-NoneBefore a k v ((j, w) ∷ m) h n = elim (Bool-cases (o.lt k j)) [
    | inl l ↦ rw (l, add) (h, n)
    | inr l ↦ rw (l, add) (n.0, add-NoneBefore a k v m h n.1)
  ]

  NoneBefore-trans :
      (a b : K) (m : List (K × V)) → o.lt b a ≡ false → NoneBefore b m → NoneBefore a m
  NoneBefore-trans a b [] h n = tt
  NoneBefore-trans a b ((j, w) ∷ m) h n =
      (not_before_trans a b j h n.0, NoneBefore-trans a b m h n.1)

  pub add-IsOrdered : (k : K) (v : V) (m : List (K × V)) → IsOrdered m → IsOrdered (add k v m)
  add-IsOrdered k v [] s = (tt, tt)
  add-IsOrdered k v ((j, w) ∷ m) s = elim (Bool-cases (o.lt k j)) [
    | inl l ↦
        let later = lt_asymm k j l in rw (l, add) ((later, NoneBefore-trans k j m later s.0), s)
    | inr l ↦ rw (l, add) (add-NoneBefore j k v m l s.0, add-IsOrdered k v m s.1)
  ]

  select_of_NoneBefore :
      (k : K) (m : List (K × V)) → NoneBefore k m → select (λ e. not (o.lt e.0 k)) m ≡ m
  select_of_NoneBefore k [] n = refl
  select_of_NoneBefore k ((j, w) ∷ m) n =
      rw (n.0, select) (ap (λ l. (j, w) ∷ l) (select_of_NoneBefore k m n.1))

  -- Erasing up to the lower bound of a key removes the entries before the key, and no other.
  pub from_lower_bound-select :
      (k : K) (m : List (K × V))
      → IsOrdered m
      → from_lower_bound k m ≡ select (λ e. not (o.lt e.0 k)) m
  from_lower_bound-select k [] s = refl
  from_lower_bound-select k ((j, w) ∷ m) s = elim (Bool-cases (o.lt j k)) [
    | inl l ↦ rw (l, from_lower_bound, select) (from_lower_bound-select k m s.1)
    | inr l ↦
        rw (l, from_lower_bound, select)
          (ap (λ l. (j, w) ∷ l) (sym (select_of_NoneBefore k m (NoneBefore-trans k j m l s.0))))
  ]

  pub from_lower_bound-IsOrdered :
      (k : K) (m : List (K × V)) → IsOrdered m → IsOrdered (from_lower_bound k m)
  from_lower_bound-IsOrdered k [] s = tt
  from_lower_bound-IsOrdered k ((j, w) ∷ m) s = elim (Bool-cases (o.lt j k)) [
    | inl l ↦ rw (l, from_lower_bound) (from_lower_bound-IsOrdered k m s.1)
    | inr l ↦ rw (l, from_lower_bound) s
  ]
