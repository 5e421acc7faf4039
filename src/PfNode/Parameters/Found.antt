-- ===== src/PfNode/Parameters/Found.antt =====
-- Where the value of a parameter is found in the tree.
use Prim.Native.String.{String}
use mrpt_navigation.Base.{
  Bool, true, false, Option, none, some, ok, err, Exception, bad_cast, ◌≡◌, refl, sym, ap, ◌∙◌, inl,
  inr, ◌⊎◌, arith, if◌then◌else◌, same_text, same_text_iff, Option-cases,
}
use mathlib.Core.List.{List, [], ◌∷◌}
use mrpt_navigation.PfNode.Parameters.{
  Numbers, Scalar, YamlNode, scalar, section, YamlMap, empty, entry, field, assign, section_at,
}

-- Neither path goes on from the other.
abbrev pub apart : List String → List String → Bool
apart [] q = false
apart p [] = false
apart (k ∷ p) (j ∷ q) = if same_text k j then apart p q else true

module _ (numbers : Numbers) where
  -- `block[k1][k2]...`
  unfoldable pub at_path : List String → YamlMap numbers → Option (YamlNode numbers)
  unfolding field
  at_path [] m = none
  at_path (key ∷ []) m = field numbers key m
  at_path (key ∷ next ∷ rest) m = elim (field numbers key m) [
    | some (section inner) ↦ at_path (next ∷ rest) inner
    | _ ↦ none
  ]

  -- Whether a scalar stands above the last key.
  unfoldable pub blocked : List String → YamlMap numbers → Bool
  unfolding field
  blocked [] m = false
  blocked (key ∷ []) m = false
  blocked (key ∷ next ∷ rest) m = elim (field numbers key m) [
    | some (section inner) ↦ blocked (next ∷ rest) inner
    | some (scalar x) ↦ true
    | none ↦ false
  ]

  pub field-assign :
      (j k : String) (n : YamlNode numbers) (m : YamlMap numbers)
      → field numbers j (assign numbers k n m)
        ≡ (if same_text j k then some n else field numbers j m)
  unfolding field assign
  field-assign j k n empty = refl
  field-assign j k n (entry i old m) =
      ground (arith, same_text_iff j k, same_text_iff k i, same_text_iff j i, field-assign j k n m)

  -- What is below a key, as `section_at` gives it.
  section_at-cases :
      (key : String) (m : YamlMap numbers)
      → ((field numbers key m ≡ none) × (section_at numbers key m ≡ ok empty))
        ⊎ (((inner : YamlMap numbers) × (field numbers key m ≡ some (section inner))
              × (section_at numbers key m ≡ ok inner))
            ⊎ ((x : Scalar numbers) × (field numbers key m ≡ some (scalar x))
                × (section_at numbers key m ≡ err bad_cast)))
  unfolding section_at
  section_at-cases key m = elim (Option-cases (field numbers key m)) [
    | inl none_there ↦ inl (none_there, rw (none_there, section_at) refl)
    | inr (section inner, there) ↦ inr (inl (inner, there, rw (there, section_at) refl))
    | inr (scalar x, there) ↦ inr (inr (x, there, rw (there, section_at) refl))
  ]

  at_path-empty : (path : List String) → at_path path empty ≡ none
  unfolding at_path field
  at_path-empty [] = refl
  at_path-empty (key ∷ []) = refl
  at_path-empty (key ∷ next ∷ rest) = refl

  pub blocked-empty : (path : List String) → blocked path empty ≡ false
  unfolding blocked field
  blocked-empty [] = refl
  blocked-empty (key ∷ []) = refl
  blocked-empty (key ∷ next ∷ rest) = refl

  -- What is at a path depends on what is at its first key alone.
  pub at_path-field :
      (key : String) (rest : List String) (m m' : YamlMap numbers)
      → field numbers key m ≡ field numbers key m'
      → (at_path (key ∷ rest) m ≡ at_path (key ∷ rest) m')
        × (blocked (key ∷ rest) m ≡ blocked (key ∷ rest) m')
  unfolding at_path blocked
  at_path-field key [] m m' same = (same, refl)
  at_path-field key (next ∷ rest) m m' same = rw (same, at_path, blocked) (refl, refl)

  pub section_at-assign :
      (key : String) (inner m : YamlMap numbers)
      → section_at numbers key (assign numbers key (section inner) m) ≡ ok inner
  unfolding section_at
  section_at-assign key inner m =
      let same : same_text key key ≡ true = (same_text_iff key key).1 refl in
      rw (field-assign key key (section inner) m, section_at, same) refl

  -- Below a key, in the map that is there or would be created.
  pub at_path-below :
      (key next : String) (rest : List String) (m inner : YamlMap numbers)
      → section_at numbers key m ≡ ok inner
      → (at_path (key ∷ next ∷ rest) m ≡ at_path (next ∷ rest) inner)
        × (blocked (key ∷ next ∷ rest) m ≡ blocked (next ∷ rest) inner)
  unfolding at_path blocked
  at_path-below key next rest m inner opens = elim (section_at-cases key m) [
    | inl (missing, new) ↦
        let is_new : empty ≡ inner = ground (arith, new, opens) in
        rw (missing, at_path, blocked)
          (
            sym (at_path-empty (next ∷ rest)) ∙ ap (at_path (next ∷ rest)) is_new,
            sym (blocked-empty (next ∷ rest)) ∙ ap (blocked (next ∷ rest)) is_new,
          )
    | inr (inl (old, there, found)) ↦
        let is_old : old ≡ inner = ground (arith, found, opens) in
        rw (there, at_path, blocked)
          (ap (at_path (next ∷ rest)) is_old, ap (blocked (next ∷ rest)) is_old)
    | inr (inr (x, there, throws)) ↦ ground (arith, throws, opens)
  ]

  pub blocked-scalar :
      (key next : String) (rest : List String) (m : YamlMap numbers) (e : Exception)
      → section_at numbers key m ≡ err e
      → (e ≡ bad_cast) × (blocked (key ∷ next ∷ rest) m ≡ true)
  unfolding blocked
  blocked-scalar key next rest m e throws = elim (section_at-cases key m) [
    | inl (missing, new) ↦ ground (arith, new, throws)
    | inr (inl (old, there, found)) ↦ ground (arith, found, throws)
    | inr (inr (x, there, cast)) ↦ (ground (arith, cast, throws), rw (there, blocked) refl)
  ]
