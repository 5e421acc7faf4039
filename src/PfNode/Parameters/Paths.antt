-- ===== src/PfNode/Parameters/Paths.antt =====
-- The dotted names as paths: the loop over the dots, described by recursion on the path.
use Prim.Native.Char.{Char, code}
use Prim.Native.String.{String, [], ◌∷◌}
use mrpt_navigation.Base.{
  ℕ, zero, suc, ◌<◌, none, some, Result, ok, err, ◌≡◌, refl, inl, inr, ◌⊎◌, arith, if◌then◌else◌,
  ◌==◌, Result-cases, Bool-cases,
}
use mathlib.Core.List.{List}
use mrpt_navigation.PfNode.Parameters.{
  before, split, size, Numbers, ParameterValue, YamlMap, set_value, section_at, put_back,
  put_back_in, insert, and_then, params_block,
}

-- One more character at the front of a path's first key.
extend : Char → List String → List String
extend c List.[] = List.[]
extend c (List.◌∷◌ k ks) = List.◌∷◌ (c ∷ k) ks

-- The keys between the dots.
unfoldable pub path_of : String → List String
unfolding extend
path_of [] = List.◌∷◌ "" List.[]
path_of (c ∷ s) = let rest = path_of s in if code c == b'.' then List.◌∷◌ "" rest else extend c rest

-- `split` cuts a path after its first key, and leaves a shorter name.
split-path :
    (s : String)
    → ((split s ≡ none) × (path_of s ≡ List.◌∷◌ s List.[]))
      ⊎ ((parts : String × String) × (split s ≡ some parts)
          × (path_of s ≡ List.◌∷◌ parts.0 (path_of parts.1))
          × (size parts.1 < size s))
unfolding split path_of extend before
split-path [] = inl (refl, refl)
split-path (c ∷ s) = elim (Bool-cases (code c == b'.')) [
  | inl dot ↦ inr (("", s), rw (dot, split) refl, rw (dot, path_of) refl, omega arith)
  | inr other ↦ elim (split-path s) [
    | inl (last, key) ↦ inl (rw (other, split, last) refl, rw (other, path_of, key) refl)
    | inr ((parent, child), more, key, shorter) ↦ inr (
      (c ∷ parent, child),
      rw (other, split, more) refl,
      rw (other, path_of, key) refl,
      omega (arith, shorter),
    )
  ]
]

module _ (numbers : Numbers) where
  -- The value set at a path, by recursion on the path.
  unfoldable pub insert_path :
      List String → ParameterValue numbers → YamlMap numbers → Result (YamlMap numbers)
  unfolding set_value section_at put_back
  insert_path List.[] v m = ok m
  insert_path (List.◌∷◌ key List.[]) v m = ok (set_value numbers key v m)
  insert_path (List.◌∷◌ key (List.◌∷◌ next rest)) v m = elim (section_at numbers key m) [
    | err e ↦ err e
    | ok inner ↦ put_back numbers key m (insert_path (List.◌∷◌ next rest) v inner)
  ]

  pub path_of-keys :
      (s : String) → (key : String) × (rest : List String) × (path_of s ≡ List.◌∷◌ key rest)
  path_of-keys s = elim (split-path s) [
    | inl (last, path) ↦ (s, List.[], path)
    | inr (parts, more, path, shorter) ↦ (parts.0, path_of parts.1, path)
  ]

  -- A key above a path that has a key.
  insert_path-below :
      (key : String) (path : List String) (v : ParameterValue numbers) (m : YamlMap numbers)
      (next : String) (rest : List String)
      → path ≡ List.◌∷◌ next rest
      → insert_path (List.◌∷◌ key path) v m ≡ elim (section_at numbers key m) [
        | err e ↦ err e
        | ok inner ↦ put_back numbers key m (insert_path path v inner)
      ]
  unfolding insert_path
  insert_path-below key List.[] v m next rest keys = ground (arith, keys)
  insert_path-below key (List.◌∷◌ k ks) v m next rest keys = refl

  -- The loop over the dots of a name ends within one round more than the name has characters, and
  -- sets the value at the name's path, creating the maps above it, or throws at a scalar above it.
  pub insert-path :
      (fuel : ℕ) (name : String) (v : ParameterValue numbers) (m : YamlMap numbers)
      → size name < fuel
      → insert numbers fuel name v m ≡ some (insert_path (path_of name) v m)
  unfolding insert insert_path put_back_in
  insert-path zero name v m enough = ground (arith, enough)
  insert-path (suc fuel) name v m enough = elim (split-path name) [
    | inl (last, path) ↦ rw (last, insert, path) refl
    | inr (parts, more, path, shorter) ↦
        let (next, rest, keys) = path_of-keys parts.1 in
        let below = insert_path-below parts.0 (path_of parts.1) v m next rest keys in
        elim (Result-cases (section_at numbers parts.0 m)) [
          | inl (inner, there) ↦
              rw
                (
                  more,
                  insert,
                  there,
                  insert-path fuel parts.1 v inner (omega (arith, shorter, enough)),
                  path,
                  below,
                  there,
                )
                refl
          | inr (e, scalar) ↦ rw (more, insert, scalar, path, below, scalar) refl
        ]
  ]

  -- Every list of parameters is nested, or an exception is thrown.
  pub params_block-ends :
      (ps : List (String × ParameterValue numbers)) (m : YamlMap numbers)
      → (r : Result (YamlMap numbers)) × (params_block numbers ps m ≡ some r)
  unfolding params_block and_then
  params_block-ends List.[] m = (ok m, refl)
  params_block-ends (List.◌∷◌ (name, v) ps) m =
      let set : insert numbers (suc (size name)) name v m ≡ some (insert_path (path_of name) v m) =
        insert-path (suc (size name)) name v m (omega arith) in
      elim (Result-cases (insert_path (path_of name) v m)) [
        | inl (m', done) ↦
            let (r, ends) = params_block-ends ps m' in
            (r, rw (set, params_block, done, and_then) ends)
        | inr (e, fails) ↦ (err e, rw (set, params_block, fails, and_then) refl)
      ]
