-- ===== src/PfNode/Parameters/Inserted.antt =====
-- What an insertion changes in the tree, and what it keeps.
use Prim.Native.String.{String}
use mrpt_navigation.Base.{
  true, false, some, ok, err, bad_cast, ◌≡◌, refl, sym, ap, subst, ◌∙◌, inl, inr, arith, same_text,
  same_text_iff, Option-cases, Result-cases, Bool-cases,
}
use mathlib.Core.List.{List, [], ◌∷◌}
use mrpt_navigation.PfNode.Parameters.{
  Numbers, ParameterValue, Scalar, scalar, section, YamlMap, field, assign, scalar_of, set_value,
  section_at, put_back,
}
use mrpt_navigation.PfNode.Parameters.Found.{
  apart, at_path, blocked, field-assign, at_path-field, section_at-assign, at_path-below,
  blocked-scalar,
}
use mrpt_navigation.PfNode.Parameters.Paths.{insert_path}

module _ (numbers : Numbers) where
  -- A value that is set at a path is found there; a scalar above it makes the cast throw.
  pub insert_path-found :
      (key : String) (rest : List String) (v : ParameterValue numbers) (m : YamlMap numbers)
      → blocked numbers (key ∷ rest) m ≡ false
      → (m' : YamlMap numbers) × (insert_path numbers (key ∷ rest) v m ≡ ok m')
        × ((x : Scalar numbers)
            → scalar_of numbers v ≡ some x
            → at_path numbers (key ∷ rest) m' ≡ some (scalar x))
  unfolding insert_path at_path set_value put_back
  insert_path-found key [] v m free = (
    set_value numbers key v m,
    refl,
    λ x handled.
        rw
          (
            handled,
            set_value,
            field-assign numbers key key (scalar x) m,
            (same_text_iff key key).1 refl,
          )
          refl,
  )
  insert_path-found key (next ∷ rest) v m free = elim (Result-cases (section_at numbers key m)) [
    | inr (e, throws) ↦ ground (arith, (blocked-scalar numbers key next rest m e throws).1, free)
    | inl (inner, opens) ↦
        let (inner', done, found) =
          insert_path-found next rest v inner
            (sym (at_path-below numbers key next rest m inner opens).1 ∙ free) in
        let m' : YamlMap numbers = assign numbers key (section inner') m in
        (
          m',
          rw (opens, insert_path, done, put_back) refl,
          λ x handled.
              (at_path-below numbers key next rest m' inner'
                (section_at-assign numbers key inner' m)).0
              ∙ found x handled,
        )
  ]

  pub insert_path-blocked :
      (key : String) (rest : List String) (v : ParameterValue numbers) (m : YamlMap numbers)
      → blocked numbers (key ∷ rest) m ≡ true
      → insert_path numbers (key ∷ rest) v m ≡ err bad_cast
  unfolding insert_path blocked put_back
  insert_path-blocked key [] v m stands = ground (arith, stands)
  insert_path-blocked key (next ∷ rest) v m stands =
      elim (Result-cases (section_at numbers key m)) [
        | inr (e, throws) ↦
            rw (throws, insert_path) (ap err (blocked-scalar numbers key next rest m e throws).0)
        | inl (inner, opens) ↦
            let below =
              insert_path-blocked next rest v inner
                (sym (at_path-below numbers key next rest m inner opens).1 ∙ stands) in
            rw (opens, insert_path, below, put_back) refl
      ]

  set_value-field :
      (other key : String) (v : ParameterValue numbers) (m : YamlMap numbers)
      → same_text other key ≡ false
      → field numbers other (set_value numbers key v m) ≡ field numbers other m
  unfolding set_value
  set_value-field other key v m differs = elim (Option-cases (scalar_of numbers v)) [
    | inl unhandled ↦ rw (unhandled, set_value) refl
    | inr (x, handled) ↦
        rw (handled, set_value, field-assign numbers other key (scalar x) m, differs) refl
  ]

  -- An insertion below a key that succeeds, taken apart.
  insert_path-inner :
      (key next : String) (rest : List String) (v : ParameterValue numbers) (m m' : YamlMap numbers)
      → insert_path numbers (key ∷ next ∷ rest) v m ≡ ok m'
      → (inner : YamlMap numbers) × (inner' : YamlMap numbers) × (section_at numbers key m
          ≡ ok inner)
        × (insert_path numbers (next ∷ rest) v inner ≡ ok inner')
        × (assign numbers key (section inner') m ≡ m')
  unfolding insert_path put_back
  insert_path-inner key next rest v m m' done = elim (Result-cases (section_at numbers key m)) [
    | inr (e, throws) ↦ let refused = rw (throws, insert_path) at done in ground (arith, refused)
    | inl (inner, opens) ↦
        let opened = rw (opens, insert_path) at done in
        elim (Result-cases (insert_path numbers (next ∷ rest) v inner)) [
          | inr (e, fails) ↦ let refused = rw (fails, put_back) at opened in ground (arith, refused)
          | inl (inner', below) ↦
              let ended = rw (below, put_back) at opened in
              (inner, inner', opens, below, ground (arith, ended))
        ]
  ]

  -- Below a key, a change that keeps a path keeps it above.
  at_path-kept_below :
      (key : String) (p path : List String) (m m' inner inner' : YamlMap numbers)
      → section_at numbers key m ≡ ok inner
      → section_at numbers key m' ≡ ok inner'
      → apart p path ≡ true
      → ((j : String)
          → (q : List String) → path ≡ j ∷ q
          → (at_path numbers (j ∷ q) inner' ≡ at_path numbers (j ∷ q) inner)
            × (blocked numbers (j ∷ q) inner' ≡ blocked numbers (j ∷ q) inner))
      → (at_path numbers (key ∷ path) m' ≡ at_path numbers (key ∷ path) m)
        × (blocked numbers (key ∷ path) m' ≡ blocked numbers (key ∷ path) m)
  at_path-kept_below key [] [] m m' inner inner' opens opens' far kept = ground (arith, far)
  at_path-kept_below key (k ∷ p) [] m m' inner inner' opens opens' far kept = ground (arith, far)
  at_path-kept_below key p (j ∷ q) m m' inner inner' opens opens' far kept =
      let here = at_path-below numbers key j q m inner opens in
      let there = at_path-below numbers key j q m' inner' opens' in
      let (found, free) = kept j q refl in
      (there.0 ∙ found ∙ sym here.0, there.1 ∙ free ∙ sym here.1)

  -- What is set at a path changes nothing at a path apart from it.
  pub insert_path-apart :
      (key : String) (rest : List String) (other : String) (path : List String)
      (v : ParameterValue numbers) (m m' : YamlMap numbers)
      → apart (key ∷ rest) (other ∷ path) ≡ true
      → insert_path numbers (key ∷ rest) v m ≡ ok m'
      → (at_path numbers (other ∷ path) m' ≡ at_path numbers (other ∷ path) m)
        × (blocked numbers (other ∷ path) m' ≡ blocked numbers (other ∷ path) m)
  unfolding insert_path
  insert_path-apart key [] other path v m m' far done =
      let differs : same_text other key ≡ false =
        ground (arith, far, same_text_iff key other, same_text_iff other key) in
      let ends : set_value numbers key v m ≡ m' = ground (arith, done) in
      at_path-field numbers other path m' m
        (ap (field numbers other) (sym ends) ∙ set_value-field other key v m differs)
  insert_path-apart key (next ∷ rest) other path v m m' far done =
      let (inner, inner', opens, below, ends) = insert_path-inner key next rest v m m' done in
      elim (Bool-cases (same_text other key)) [
        | inr differs ↦ at_path-field numbers other path m' m (
            ap (field numbers other) (sym ends)
            ∙ field-assign numbers other key (section inner') m
            ∙ (rw differs refl))
        | inl same ↦
            let is_key : other ≡ key = (same_text_iff other key).0 same in
            let same' : same_text key other ≡ true = (same_text_iff key other).1 (sym is_key) in
            let far_below : apart (next ∷ rest) path ≡ true = rw same' at far in
            subst
              (λ o.
                (at_path numbers (o ∷ path) m' ≡ at_path numbers (o ∷ path) m)
                × (blocked numbers (o ∷ path) m' ≡ blocked numbers (o ∷ path) m))
              (sym is_key)
              (at_path-kept_below key (next ∷ rest) path m m' inner inner' opens
                (subst (λ n. section_at numbers key n ≡ ok inner') ends
                  (section_at-assign numbers key inner' m))
                far_below
                (λ j q is_path.
                  insert_path-apart next rest j q v inner inner'
                    (ap (apart (next ∷ rest)) (sym is_path) ∙ far_below) below))
      ]
