-- ===== src/Base/StdMap.antt =====
-- `std::map`: an association list kept in the order of its keys.
use mrpt_navigation.Base.Tests.{if◌then◌else◌, Bool-cases, has_value, ◌==◌, ==_iff, ltb}
use Prim.Native.Nat.{ℕ}
use mathlib.Core.Path.{◌≡◌, refl, sym, ap, ◌∙◌}
use mathlib.Core.Logic.{◌↔◌, inl, inr}
use mathlib.Core.Bool.{Bool, true, false}
use mathlib.Core.Option.{Option, none, some}
use mathlib.Core.List.{List, [], ◌∷◌, ◌++◌, append-nil, append_assoc}
use native.Mathlib.Omega.{arith}

-- A type of keys with the strict total order that the container is given.
pub record Key {ℓ} (K : Type ℓ) : Type ℓ where
  pub beq : K → K → Bool
  pub lt : K → K → Bool
  pub beq_iff : (a b : K) → (beq a b ≡ true) ↔ (a ≡ b)
  pub lt_irrefl : (a : K) → lt a a ≡ false
  pub lt_trans : (a b c : K) → lt a b ≡ true → lt b c ≡ true → lt a c ≡ true
  pub lt_total : (a b : K) → beq a b ≡ false → lt a b ≡ false → lt b a ≡ true

pub ltb_irrefl : (a : ℕ) → ltb a a ≡ false
ltb_irrefl a = ground arith

pub ltb_trans : (a b c : ℕ) → ltb a b ≡ true → ltb b c ≡ true → ltb a c ≡ true
ltb_trans a b c h k = ground arith

pub ltb_total : (a b : ℕ) → (a == b) ≡ false → ltb a b ≡ false → ltb b a ≡ true
ltb_total a b h k = ground arith

instance abbrev pub nat_key : Key ℕ
nat_key = record {
  beq = ◌==◌;
  lt = ltb;
  beq_iff = ==_iff;
  lt_irrefl = ltb_irrefl;
  lt_trans = ltb_trans;
  lt_total = ltb_total;
}

module _ {ℓ κ} {K : Type ℓ} {V : Type κ} ⦃o : Key K⦄ where
  abbrev pub find : K → List (K × V) → Option V
  find k [] = none
  find k ((j, v) ∷ m) = if o.beq k j then some v else find k m

  -- `m[k] = v`, `insert_or_assign`.
  abbrev pub assign : K → V → List (K × V) → List (K × V)
  assign k v [] = (k, v) ∷ []
  assign k v ((j, w) ∷ m) =
      if o.beq k j
      then (k, v) ∷ m
      else if o.lt k j
      then (k, v) ∷ (j, w) ∷ m
      else (j, w) ∷ assign k v m

  abbrev pub contains : K → List (K × V) → Bool
  contains k m = has_value (find k m)

  -- `m.insert({k, v})` keeps the value of a key that is there.
  abbrev pub insert : K → V → List (K × V) → List (K × V)
  insert k v m = if contains k m then m else assign k v m

module _ {ℓ} {K : Type ℓ} ⦃o : Key K⦄ where
  pub beq_refl : (k : K) → o.beq k k ≡ true
  beq_refl k = (o.beq_iff k k).1 refl

  pub not-beq_of_lt : (a b : K) → o.lt a b ≡ true → o.beq a b ≡ false
  not-beq_of_lt a b h = elim (Bool-cases (o.beq a b)) [
    | inl same ↦ cc ((o.beq_iff a b).0 same, o.lt_irrefl a)
    | inr other ↦ other
  ]

  pub not-beq_of_gt : (a b : K) → o.lt b a ≡ true → o.beq a b ≡ false
  not-beq_of_gt a b h = elim (Bool-cases (o.beq a b)) [
    | inl same ↦ cc ((o.beq_iff a b).0 same, o.lt_irrefl a)
    | inr other ↦ other
  ]

  pub lt_asymm : (a b : K) → o.lt a b ≡ true → o.lt b a ≡ false
  lt_asymm a b h = elim (Bool-cases (o.lt b a)) [
    | inl back ↦ cc (o.lt_trans a b a h back, o.lt_irrefl a)
    | inr no_back ↦ no_back
  ]

module _ {ℓ κ} {K : Type ℓ} {V : Type κ} ⦃o : Key K⦄ where
  -- The key lies below the first one, which is enough in a sorted map.
  abbrev pub Below : K → List (K × V) → Type 0
  Below k [] = Unit
  Below k ((j, v) ∷ m) = o.lt k j ≡ true

  abbrev pub IsSorted : List (K × V) → Type 0
  IsSorted [] = Unit
  IsSorted ((k, v) ∷ m) = Below k m × IsSorted m

  pub find-assign :
      (j k : K) (v : V) (m : List (K × V))
      → find j (assign k v m) ≡ (if o.beq j k then some v else find j m)
  find-assign j k v [] = refl
  find-assign j k v ((i, w) ∷ m) =
      ground (arith, o.beq_iff j k, o.beq_iff k i, o.beq_iff j i, find-assign j k v m)

  pub find-insert :
      (j k : K) (v : V) (m : List (K × V))
      → find j (insert k v m)
        ≡ (if contains k m then find j m else if o.beq j k then some v else find j m)
  find-insert j k v m = ground (arith, find-assign j k v m)

  pub Below-trans : (a b : K) (m : List (K × V)) → o.lt a b ≡ true → Below b m → Below a m
  Below-trans a b [] h k = tt
  Below-trans a b ((j, v) ∷ m) h k = o.lt_trans a b j h k

  pub find_of_Below : (k : K) (m : List (K × V)) → Below k m → IsSorted m → find k m ≡ none
  find_of_Below k [] h s = refl
  find_of_Below k ((j, v) ∷ m) h s =
      rw (not-beq_of_lt k j h) (find_of_Below k m (Below-trans k j m h s.0) s.1)

  assign-Below :
      (a k : K) (v : V) (m : List (K × V)) → o.lt a k ≡ true → Below a m → Below a (assign k v m)
  assign-Below a k v [] h b = h
  assign-Below a k v ((j, w) ∷ m) h b = ground arith

  pub assign-IsSorted : (k : K) (v : V) (m : List (K × V)) → IsSorted m → IsSorted (assign k v m)
  assign-IsSorted k v [] s = (tt, tt)
  assign-IsSorted k v ((j, w) ∷ m) s = elim (Bool-cases (o.beq k j)) [
    | inl same ↦ rw same (ground (arith, o.beq_iff k j))
    | inr other ↦ rw other (elim (Bool-cases (o.lt k j)) [
      | inl before ↦ rw before (before, s)
      | inr after ↦
          rw after
            (assign-Below j k v m (o.lt_total k j other after) s.0, assign-IsSorted k v m s.1)
    ])
  ]

  pub insert-IsSorted : (k : K) (v : V) (m : List (K × V)) → IsSorted m → IsSorted (insert k v m)
  insert-IsSorted k v m s = ground (arith, assign-IsSorted k v m s)

  -- Every key of the map lies below the given one.
  abbrev pub Above : K → List (K × V) → Type 0
  Above k [] = Unit
  Above k ((j, v) ∷ m) = (o.lt j k ≡ true) × Above k m

  find_of_Above : (k : K) (m : List (K × V)) → Above k m → find k m ≡ none
  find_of_Above k [] h = refl
  find_of_Above k ((j, v) ∷ m) h = rw (not-beq_of_gt k j h.0) (find_of_Above k m h.1)

  assign_of_Above : (k : K) (v : V) (m : List (K × V)) → Above k m → assign k v m ≡ m ++ (k, v) ∷ []
  assign_of_Above k v [] h = refl
  assign_of_Above k v ((j, w) ∷ m) h =
      rw (not-beq_of_gt k j h.0, lt_asymm j k h.0) (ap (◌∷◌ (j, w)) (assign_of_Above k v m h.1))

  -- An insertion in key order goes to the end.
  pub insert_of_Above :
      (k : K) (v : V) (m : List (K × V)) → Above k m → insert k v m ≡ m ++ (k, v) ∷ []
  insert_of_Above k v m h = rw (find_of_Above k m h) (assign_of_Above k v m h)

  -- The loop that copies pairs into a map.
  abbrev pub insert_all : List (K × V) → List (K × V) → List (K × V)
  insert_all [] m = m
  insert_all ((k, v) ∷ ps) m = insert_all ps (insert k v m)

  abbrev AllAbove : List (K × V) → List (K × V) → Type 0
  AllAbove [] m = Unit
  AllAbove ((k, v) ∷ ps) m = Above k m × AllAbove ps m

  Above-snoc :
      (a k : K) (v : V) (m : List (K × V))
      → Above a m
      → o.lt k a ≡ true
      → Above a (m ++ (k, v) ∷ [])
  Above-snoc a k v [] h l = (l, tt)
  Above-snoc a k v ((j, w) ∷ m) h l = (h.0, Above-snoc a k v m h.1 l)

  AllAbove-snoc :
      (k : K) (v : V) (ps m : List (K × V))
      → Below k ps
      → IsSorted ps
      → AllAbove ps m
      → AllAbove ps (m ++ (k, v) ∷ [])
  AllAbove-snoc k v [] m b s a = tt
  AllAbove-snoc k v ((j, w) ∷ ps) m b s a =
      (Above-snoc j k v m a.0 b, AllAbove-snoc k v ps m (Below-trans k j ps b s.0) s.1 a.1)

  insert_all-append :
      (ps m : List (K × V)) → IsSorted ps → AllAbove ps m → insert_all ps m ≡ m ++ ps
  insert_all-append [] m s a = sym (append-nil m)
  insert_all-append ((k, v) ∷ ps) m s a = rw (insert_of_Above k v m a.0) (
      insert_all-append ps (m ++ (k, v) ∷ []) s.1 (AllAbove-snoc k v ps m s.0 s.1 a.1)
      ∙ append_assoc m ((k, v) ∷ []) ps)

  AllAbove-nil : (ps : List (K × V)) → AllAbove ps []
  AllAbove-nil [] = tt
  AllAbove-nil ((k, v) ∷ ps) = (tt, AllAbove-nil ps)

  -- Copying a map into an empty one gives the map.
  pub insert_all_self : (ps : List (K × V)) → IsSorted ps → insert_all ps [] ≡ ps
  insert_all_self ps s = insert_all-append ps [] s (AllAbove-nil ps)

  pub insert_all-IsSorted : (ps m : List (K × V)) → IsSorted m → IsSorted (insert_all ps m)
  insert_all-IsSorted [] m s = s
  insert_all-IsSorted ((k, v) ∷ ps) m s =
      insert_all-IsSorted ps (insert k v m) (insert-IsSorted k v m s)
