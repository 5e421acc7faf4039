-- ===== src/MapServer/Start.antt =====
-- `MapServer::init` and `loop`: the map is read from one of three files, and published once.
pub mod Started
use Prim.Native.String.{String}
use mrpt_navigation.Base.{
  Bool, false, Option, none, some, List, [], ◌∷◌, Result, ok, err, ◌>>=◌, ◌>>◌, assert, or_throw,
  assertion_failed, if◌then◌else◌, same_text,
}
use mrpt_navigation.MapServer.Library.{Maps}
use mrpt_navigation.MapServer.Publish.{Server, Outcome, publish_map}

module _ (maps : Maps) where
  open maps use {Stamp, Layer}

  -- The files and what MRPT and mp2p_icp read from them.
  pub record Files : Type 1 where
    pub exists : String → Bool
    -- the grid that `loadFromROSMapServerYAML` leaves; whether it could be read is not looked at
    pub grid_of_yaml : String → Layer
    -- `ReadObject`, which may throw or give a null pointer, and the cast to a metric map
    pub Object : Type 0
    pub read_object : String → Result (Option Object)
    pub as_metric_map : Object → Option Layer
    -- `load_from_file`, or `none` if it answers false
    pub layers_of_file : String → Option (List (String × Layer))

  -- The parameters; `service_map` is read and not used.
  pub record Parameters : Type 0 where
    pub map_yaml_file : String
    pub mrpt_metricmap_file : String
    pub mm_file : String
    pub frame_id : String
    pub pub_mm_topic : String

  abbrev pub default_parameters : Parameters
  default_parameters = record {
    map_yaml_file = "";
    mrpt_metricmap_file = "";
    mm_file = "map.mm";
    frame_id = "map";
    pub_mm_topic = "map_server";
  }

  -- A server with these layers that has published nothing.
  abbrev pub new_server : Parameters → List (String × Layer) → Server maps
  new_server p ls = record {
    layers = ls;
    frame_id = p.frame_id;
    pub_mm_topic = p.pub_mm_topic;
    pub_mm = false;
    pub_layers = [];
    pub_point_maps = [];
    pub_grid_maps = [];
    created = [];
    published = [];
  }

  module _ (files : Files) where
    open files use {exists, grid_of_yaml, Object, read_object, as_metric_map, layers_of_file}

    read_metric_map : String → Result (List (String × Layer))
    read_metric_map file =
        assert (exists file)
        >> (read_object file >>= λ obj. or_throw obj assertion_failed >>= λ o.
            or_throw (as_metric_map o) assertion_failed >>= λ l. ok (("map", l) ∷ []))

    read_mm_file : String → Result (List (String × Layer))
    read_mm_file file = assert (exists file) >> or_throw (layers_of_file file) assertion_failed

    -- The first of the three formats whose parameter is set.
    pub read_layers : Parameters → Result (List (String × Layer))
    unfolding read_metric_map read_mm_file
    read_layers p =
        if same_text p.map_yaml_file ""
        then (if same_text p.mrpt_metricmap_file ""
            then read_mm_file p.mm_file
            else read_metric_map p.mrpt_metricmap_file)
        else ok (("map", grid_of_yaml p.map_yaml_file) ∷ [])

    pub init : Parameters → Result (Server maps)
    unfolding read_layers
    init p = read_layers p >>= λ ls. ok (new_server p ls)

    -- `loop` after `init`: what happens before the node only spins.
    pub start : Stamp → Parameters → Result (Outcome maps)
    unfolding init
    start now p = init p >>= λ s. ok (publish_map maps now s)
