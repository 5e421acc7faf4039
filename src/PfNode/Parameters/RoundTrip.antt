-- ===== src/PfNode/Parameters/RoundTrip.antt =====
-- The parameters of ROS, read back from the tree of YAML maps.
use Prim.Native.String.{String}
use mrpt_navigation.Base.{
  ℕ, ◌<◌, bad_cast, ◌⊎◌, inl, inr, Bool-cases, true, false, err, suc, some, ok, ◌≡◌, refl, ap, ◌∙◌,
  All, arith, same_text_iff,
}
use mathlib.Core.List.{List, [], ◌∷◌}
use mrpt_navigation.PfNode.Parameters.{
  size, Numbers, ParameterValue, Scalar, scalar, YamlMap, empty, scalar_of, insert, and_then,
  params_block,
}
use mrpt_navigation.PfNode.Parameters.Paths.{path_of, insert_path, path_of-keys, insert-path}
use mrpt_navigation.PfNode.Parameters.Found.{apart, at_path, blocked, blocked-empty}
use mrpt_navigation.PfNode.Parameters.Inserted.{
  insert_path-found, insert_path-blocked, insert_path-apart,
}

apart_comm : (p q : List String) → apart p q ≡ apart q p
apart_comm [] [] = refl
apart_comm [] (j ∷ q) = refl
apart_comm (k ∷ p) [] = refl
apart_comm (k ∷ p) (j ∷ q) = ground (arith, same_text_iff k j, same_text_iff j k, apart_comm p q)

-- Two dotted names of which neither goes on from the other.
abbrev pub Apart : String → String → Type 0
Apart s t = apart (path_of s) (path_of t) ≡ true

module _ (numbers : Numbers) where
  abbrev pub Params : Type 0
  Params = List (String × ParameterValue numbers)

  abbrev pub AllApart : Params → Type 0
  AllApart [] = Unit
  AllApart ((name, v) ∷ ps) = All (λ p. Apart name p.0) ps × AllApart ps

  -- A parameter of a type that is handled is found at its path.
  abbrev pub IsFound : YamlMap numbers → String × ParameterValue numbers → Type 0
  IsFound m (name, v) =
      (x : Scalar numbers)
      → scalar_of numbers v ≡ some x
      → at_path numbers (path_of name) m ≡ some (scalar x)

  abbrev IsFree : YamlMap numbers → String × ParameterValue numbers → Type 0
  IsFree m (name, v) = blocked numbers (path_of name) m ≡ false

  insert_path-IsFound :
      (path : List String) (key : String) (rest : List String) (v : ParameterValue numbers)
      (m : YamlMap numbers)
      → path ≡ key ∷ rest
      → blocked numbers path m ≡ false
      → (m' : YamlMap numbers) × (insert_path numbers path v m ≡ ok m')
        × ((x : Scalar numbers)
            → scalar_of numbers v ≡ some x
            → at_path numbers path m' ≡ some (scalar x))
  insert_path-IsFound [] key rest v m keys free = ground (arith, keys)
  insert_path-IsFound (k ∷ ks) key rest v m keys free = insert_path-found numbers k ks v m free

  insert_path-refused :
      (path : List String) (v : ParameterValue numbers) (m : YamlMap numbers)
      → blocked numbers path m ≡ true
      → insert_path numbers path v m ≡ err bad_cast
  unfolding blocked
  insert_path-refused [] v m stands = ground (arith, stands)
  insert_path-refused (k ∷ ks) v m stands = insert_path-blocked numbers k ks v m stands

  -- The loop over the dots of a name ends within one round more than the name has characters: it
  -- throws exactly if a scalar stands above the last key, and else a value of a type that is
  -- handled is found at the path of the name.
  pub insert-Outcome :
      (fuel : ℕ) (name : String) (v : ParameterValue numbers) (m : YamlMap numbers)
      → size name < fuel
      → ((blocked numbers (path_of name) m ≡ true)
          × (insert numbers fuel name v m ≡ some (err bad_cast)))
        ⊎ ((m' : YamlMap numbers) × (blocked numbers (path_of name) m ≡ false)
            × (insert numbers fuel name v m ≡ some (ok m'))
            × IsFound m' (name, v))
  insert-Outcome fuel name v m enough =
      let ends = insert-path numbers fuel name v m enough in
      let (key, rest, keys) = path_of-keys numbers name in
      elim (Bool-cases (blocked numbers (path_of name) m)) [
        | inl stands ↦ inl (stands, ends ∙ ap some (insert_path-refused (path_of name) v m stands))
        | inr free ↦
            let (m', done, found) = insert_path-IsFound (path_of name) key rest v m keys free in
            inr (m', free, ends ∙ ap some done, found)
      ]

  insert_path-keeps :
      (path q : List String) (v : ParameterValue numbers) (m m' : YamlMap numbers)
      → apart path q ≡ true
      → insert_path numbers path v m ≡ ok m'
      → (at_path numbers q m' ≡ at_path numbers q m) × (blocked numbers q m' ≡ blocked numbers q m)
  insert_path-keeps [] q v m m' far done = ground (arith, far)
  insert_path-keeps (k ∷ p) [] v m m' far done = ground (arith, far)
  insert_path-keeps (k ∷ p) (j ∷ q) v m m' far done =
      insert_path-apart numbers k p j q v m m' far done

  All-IsFree :
      (name : String) (v : ParameterValue numbers) (m m' : YamlMap numbers) (ps : Params)
      → insert_path numbers (path_of name) v m ≡ ok m'
      → All (λ p. Apart name p.0) ps
      → All (IsFree m) ps
      → All (IsFree m') ps
  All-IsFree name v m m' [] done far free = tt
  All-IsFree name v m m' (p ∷ ps) done far free = (
    (insert_path-keeps (path_of name) (path_of p.0) v m m' far.0 done).1 ∙ free.0,
    All-IsFree name v m m' ps done far.1 free.1,
  )

  params_block-IsFound_from :
      (ps : Params) (m : YamlMap numbers)
      → AllApart ps
      → All (IsFree m) ps
      → (m' : YamlMap numbers) × (params_block numbers ps m ≡ some (ok m'))
        × All (IsFound m') ps
        × ((name : String)
            → All (λ p. Apart name p.0) ps
            → at_path numbers (path_of name) m' ≡ at_path numbers (path_of name) m)
  unfolding params_block and_then
  params_block-IsFound_from [] m far free = (m, refl, tt, λ name h. refl)
  params_block-IsFound_from ((name, v) ∷ ps) m far free =
      let (key, rest, keys) = path_of-keys numbers name in
      let (m1, done, found) = insert_path-IsFound (path_of name) key rest v m keys free.0 in
      let (m2, ends, all_found, kept) =
        params_block-IsFound_from ps m1 far.1 (All-IsFree name v m m1 ps done far.0 free.1) in
      let set : insert numbers (suc (size name)) name v m ≡ some (ok m1) =
        insert-path numbers (suc (size name)) name v m (omega arith) ∙ ap some done in
      (
        m2,
        rw (set, params_block, ends) refl,
        ((λ x handled. kept name far.0 ∙ found x handled), all_found),
        λ other apart_all.
            kept other apart_all.1
            ∙ (insert_path-keeps (path_of name) (path_of other) v m m1
                (apart_comm (path_of name) (path_of other) ∙ apart_all.0) done).0,
      )

  All-IsFree_empty : (ps : Params) → All (IsFree empty) ps
  All-IsFree_empty [] = tt
  All-IsFree_empty ((name, v) ∷ ps) = (blocked-empty numbers (path_of name), All-IsFree_empty ps)

  -- If of no two parameters one goes on from the other by a dot, the nesting succeeds, and every
  -- parameter of a type that is handled is found at the path of its name.
  pub params_block-IsFound :
      (ps : Params)
      → AllApart ps
      → (block : YamlMap numbers) × (params_block numbers ps empty ≡ some (ok block))
        × All (IsFound block) ps
  params_block-IsFound ps far =
      let (block, done, found, kept) =
        params_block-IsFound_from ps empty far (All-IsFree_empty ps) in
      (block, done, found)
