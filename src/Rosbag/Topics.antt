-- ===== src/Rosbag/Topics.antt =====
-- `std::map<std::string, std::vector<T>>` as rosbag2rawlog.cpp uses it: by key, never in order.
use Prim.Native.String.{String}
use mrpt_navigation.Base.{
  Option, none, some, List, [], ◌∷◌, ◌++◌, ◌≡◌, same_text, same_text_iff, if◌then◌else◌, value_or,
  arith,
}

module _ {T : Type 0} where
  unfoldable pub find : String → List (String × List T) → Option (List T)
  find k [] = none
  find k ((j, ts) ∷ m) = if same_text k j then some ts else find k m

  -- `m[k].emplace_back(t)`
  unfoldable pub add : String → T → List (String × List T) → List (String × List T)
  add k t [] = (k, t ∷ []) ∷ []
  add k t ((j, ts) ∷ m) = if same_text k j then (j, ts ++ t ∷ []) ∷ m else (j, ts) ∷ add k t m

  -- What is at a key, an empty vector if there is none.
  abbrev pub at_key : String → List (String × List T) → List T
  at_key k m = value_or (find k m) []

  pub at_key-add :
      (j k : String) (t : T) (m : List (String × List T))
      → at_key j (add k t m) ≡ (if same_text j k then at_key j m ++ t ∷ [] else at_key j m)
  unfolding find add
  at_key-add j k t [] = ground (arith, same_text_iff j k)
  at_key-add j k t ((i, ts) ∷ m) =
      ground (arith, same_text_iff j k, same_text_iff k i, same_text_iff j i, at_key-add j k t m)
