-- ===== src/MapServer/Services.antt =====
-- The services of `MapServer`.
pub mod Answers
use Prim.Native.String.{String}
use mrpt_navigation.Base.{
  Bool, true, false, Option, none, some, List, [], ◌∷◌, map, Result, ok, err, if◌then◌else◌,
  same_text,
}
use mrpt_navigation.MapServer.Library.{Maps, Header}
use mrpt_navigation.MapServer.Publish.{Server, pointmap_layer_to_msg}

module _ (maps : Maps) where
  open maps use {Stamp, Layer, as_points, as_grid, CloudMsg, GridMsg, grid_msg}

  -- `theMap_.layers.at(name)`, where `count(name)` is not 0
  unfoldable pub find_layer : String → List (String × Layer) → Option Layer
  find_layer name [] = none
  find_layer name ((k, l) ∷ ls) = if same_text name k then some l else find_layer name ls

  pub srv_map_layers : Server maps → List String
  srv_map_layers s = map (λ p. p.0) s.layers

  -- A response: `valid`, and the message if one has been converted.
  pub record Response (Msg : Type 0) : Type 0 where
    pub valid : Bool
    pub msg : Option Msg

  abbrev refused : {Msg : Type 0} → Response Msg
  refused = record { valid = false; msg = none }

  pub srv_get_gridmap : Stamp → String → Server maps → Response GridMsg
  unfolding find_layer
  srv_get_gridmap now name s = elim (find_layer name s.layers) [
    | none ↦ refused
    | some l ↦ elim (as_grid l) [
      | none ↦ refused
      | some g ↦ record {
        valid = true;
        msg = some (grid_msg g (record { stamp = now; frame_id = s.frame_id }));
      }
    ]
  ]

  -- An exception leaves the response as it is, not valid.
  pub srv_get_pointmap : Stamp → String → Server maps → Response CloudMsg × Result (Unit {0})
  unfolding find_layer
  srv_get_pointmap now name s = elim (find_layer name s.layers) [
    | none ↦ (refused, ok tt)
    | some l ↦ elim (as_points l) [
      | none ↦ (refused, ok tt)
      | some pts ↦
          elim (pointmap_layer_to_msg maps (record { stamp = now; frame_id = s.frame_id }) pts) [
            | err e ↦ (refused, err e)
            | ok msg ↦ (record { valid = true; msg = some msg }, ok tt)
          ]
    ]
  ]
