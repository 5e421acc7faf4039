-- ===== src/PfNode/Parameters.antt =====
-- `PFLocalizationNode::reload_params_from_ros`: the parameters of ROS, whose names are nested by
-- dots, as a tree of YAML maps.
pub mod Paths
pub mod Found
pub mod Inserted
pub mod RoundTrip
use Prim.Native.Char.{Char, code}
use Prim.Native.String.{String, [], ◌∷◌}
use mrpt_navigation.Base.{
  ℕ, zero, suc, Bool, Option, none, some, Result, ok, err, bad_cast, if◌then◌else◌, same_text, ◌==◌,
}
use mathlib.Core.List

-- Numbers as ROS and YAML have them: `get<int>()` narrows a 64-bit integer.
pub record Numbers : Type 1 where
  pub Real : Type 0
  pub Integer : Type 0
  pub Int : Type 0
  pub to_int : Integer → Int

-- `name.find(".")`, with what `substr` gives before and after it.
before : Char → String × String → String × String
before c (parent, child) = (c ∷ parent, child)

unfoldable pub split : String → Option (String × String)
unfolding before
split [] = none
split (c ∷ s) =
    let rest = split s in
    if code c == b'.'
    then some ("", s)
    else elim rest [ none ↦ none | some parts ↦ some (before c parts) ]

abbrev pub size : String → ℕ
size [] = 0
size (c ∷ s) = suc (size s)

module _ (numbers : Numbers) where
  open numbers use {Real, Integer, Int, to_int}

  pub data ParameterValue : Type 0 where
    bool_value : Bool → ParameterValue
    double_value : Real → ParameterValue
    integer_value : Integer → ParameterValue
    string_value : String → ParameterValue
    -- arrays, bytes and parameters that are not set
    other_value : ParameterValue

  pub data Scalar : Type 0 where
    bool : Bool → Scalar
    double : Real → Scalar
    int : Int → Scalar
    string : String → Scalar

  mutual
    pub data YamlNode : Type 0 where
      scalar : Scalar → YamlNode
      section : YamlMap → YamlNode

    pub data YamlMap : Type 0 where
      empty : YamlMap
      entry : String → YamlNode → YamlMap → YamlMap

  unfoldable pub field : String → YamlMap → Option YamlNode
  field key empty = none
  field key (entry k n m) = if same_text key k then some n else field key m

  -- `map[key] = node`
  unfoldable pub assign : String → YamlNode → YamlMap → YamlMap
  assign key node empty = entry key node empty
  assign key node (entry k n m) =
      if same_text key k then entry k node m else entry k n (assign key node m)

  abbrev pub scalar_of : ParameterValue → Option Scalar
  scalar_of (bool_value b) = some (bool b)
  scalar_of (double_value x) = some (double x)
  scalar_of (integer_value i) = some (int (to_int i))
  scalar_of (string_value s) = some (string s)
  scalar_of other_value = none

  -- The `switch`: a value of another type is warned of.
  unfoldable pub set_value : String → ParameterValue → YamlMap → YamlMap
  unfolding assign
  set_value name v m = elim (scalar_of v) [ none ↦ m | some x ↦ assign name (scalar x) m ]

  -- The map of a parent key, which is created if it is not there; `asMap` throws at a scalar.
  unfoldable pub section_at : String → YamlMap → Result YamlMap
  unfolding field
  section_at key m = elim (field key m) [
    | none ↦ ok empty
    | some (section inner) ↦ ok inner
    | some (scalar x) ↦ err bad_cast
  ]

  -- What has been done below a key, seen from above.
  unfoldable pub put_back : String → YamlMap → Result YamlMap → Result YamlMap
  unfolding assign
  put_back key m (err e) = err e
  put_back key m (ok inner) = ok (assign key (section inner) m)

  put_back_in : String → YamlMap → Option (Result YamlMap) → Option (Result YamlMap)
  unfolding put_back
  put_back_in key m none = none
  put_back_in key m (some r) = some (put_back key m r)

  -- The loop over the dots of a name, on fuel, and the assignment after it.
  pub insert : ℕ → String → ParameterValue → YamlMap → Option (Result YamlMap)
  unfolding split set_value section_at put_back_in
  insert zero name v m = none
  insert (suc fuel) name v m = elim (split name) [
    | none ↦ some (ok (set_value name v m))
    | some parts ↦ elim (section_at parts.0 m) [
      | err e ↦ some (err e)
      | ok inner ↦ put_back_in parts.0 m (insert fuel parts.1 v inner)
    ]
  ]

  and_then : Option (Result YamlMap) → (YamlMap → Option (Result YamlMap)) → Option (Result YamlMap)
  and_then none f = none
  and_then (some (err e)) f = some (err e)
  and_then (some (ok m)) f = f m

  -- `for (const auto& kv : allParams)`; a name has fewer dots than characters.
  unfoldable pub params_block :
      List.List (String × ParameterValue) → YamlMap → Option (Result YamlMap)
  unfolding insert and_then
  params_block List.[] m = some (ok m)
  params_block (List.◌∷◌ (name, v) ps) m =
      and_then (insert (suc (size name)) name v m) (params_block ps)
