-- ===== src/Pf/Yaml.antt =====
-- The macros MCP_LOAD_REQ and MCP_LOAD_OPT, and `getOptParam`, as functions. The YAML reader is a
-- parameter.
use Prim.Native.String.{String}
use mrpt_navigation.Base.{
  Option, none, some, Result, ok, err, ◌>>=◌, or_throw, missing_key, bad_cast, if◌then◌else◌,
}
use mrpt_navigation.Pf.Library.{Mrpt}

-- `as<T>()` of an enumeration goes through its name.
unfoldable pub as_enum :
    {Node A : Type 0} → (Node → Option String) → (String → Option A) → Node → Option A
as_enum as_text of_name n = elim (as_text n) [ none ↦ none | some s ↦ of_name s ]

module _ (mrpt : Mrpt) where
  open mrpt use {
    Real, Node, has, at, is_map, is_scalar, as_bool, as_size, as_real, as_text, deg2rad, pose3,
    diagonal, ratio, times, pi, selection2_of, selection3_of, algorithm_of, resampling_of,
    likelihood_points_from, likelihood_grid_from,
  }

  -- MCP_LOAD_REQ
  unfoldable pub required : {A : Type 0} → (Node → Option A) → Node → String → Result A
  required conv p key =
      if has p key
      then or_throw (at p key) missing_key >>= (λ n. or_throw (conv n) bad_cast)
      else err missing_key

  -- MCP_LOAD_OPT and getOptParam: a missing key keeps the value that the variable has.
  unfoldable pub optional : {A : Type 0} → (Node → Option A) → Node → String → A → Result A
  optional conv p key old =
      if has p key
      then or_throw (at p key) missing_key >>= (λ n. or_throw (conv n) bad_cast)
      else ok old

  -- MCP_LOAD_OPT_DEG
  unfoldable pub as_degrees : Node → Option Real
  as_degrees n = elim (as_real n) [ none ↦ none | some d ↦ some (deg2rad d) ]

  -- `p[key]` of a constant node
  unfoldable pub child : Node → String → Result Node
  child p key = or_throw (at p key) missing_key
