-- ===== src/MapServer/Publish.antt =====
-- `MapServer::publish_map`. Each handler reads the clock once here. A layer is no null pointer.
pub mod Expected
pub mod Registered
pub mod Creations
pub mod Publishers
use Prim.Native.String
use Prim.Native.String.{String}
use mrpt_navigation.Base.{
  Bool, true, false, ◌||◌, Option, none, some, List, [], ◌∷◌, ◌++◌, Result, ok, err,
  unexpected_class, if◌then◌else◌, same_text,
}
use mrpt_navigation.MapServer.Library.{Maps, Header}

-- The four maps of publishers, and the publisher of the whole map.
pub data Publisher : Type 0 where
  whole_map : Publisher
  layer points gridmap gridmap_metadata : String → Publisher

abbrev pub contains_text : String → List String → Bool
contains_text s [] = false
contains_text s (t ∷ ts) = same_text s t || contains_text s ts

module _ (maps : Maps) where
  open maps use {
    next_stamp, Stamp, Layer, Points, as_points, as_voxels, occupied_voxels, as_grid, CloudMsg,
    xyzirt_msg, xyzi_msg, simple_msg, occupied_msg, GridMsg, grid_msg, MetaData, info,
  }

  pub data Message : Type 0 where
    whole : List (String × Layer) → Message
    object : Layer → Message
    cloud : CloudMsg → Message
    grid : GridMsg → Message
    metadata : MetaData → Message

  -- The layers are those of `theMap_`, in the order of `std::map`; the publishers that each of the
  -- maps has; and what has been created and published.
  pub record Server : Type 0 where
    pub layers : List (String × Layer)
    pub frame_id : String
    pub pub_mm_topic : String
    pub pub_mm : Bool
    pub pub_layers : List String
    pub pub_point_maps : List String
    pub pub_grid_maps : List String
    pub created : List (Publisher × String)
    pub published : List (Publisher × Message)

  abbrev pub Outcome : Type 0
  Outcome = Server × Result (Unit {0})

  -- The topic of a publisher.
  pub topic_of : String → Publisher → String
  topic_of prefix whole_map = String.◌++◌ prefix "/metric_map"
  topic_of prefix (layer name) = String.◌++◌ prefix (String.◌++◌ "/" name)
  topic_of prefix (points name) = String.◌++◌ prefix (String.◌++◌ "/" (String.◌++◌ name "_points"))
  topic_of prefix (gridmap name) =
      String.◌++◌ prefix (String.◌++◌ "/" (String.◌++◌ name "_gridmap"))
  topic_of prefix (gridmap_metadata name) =
      String.◌++◌ prefix (String.◌++◌ "/" (String.◌++◌ name "_gridmap_metadata"))

  create : Publisher → Server → Server
  unfolding topic_of
  create p s = record s { created = s.created ++ (p, topic_of s.pub_mm_topic p) ∷ [] }

  pub publish : Publisher → Message → Server → Server
  publish p m s = record s { published = s.published ++ (p, m) ∷ [] }

  -- The creations at the first use.
  pub with_whole_map : Server → Server
  unfolding create
  with_whole_map s = if s.pub_mm then s else record (create whole_map s) { pub_mm = true }

  pub with_layer : String → Server → Server
  unfolding create
  with_layer name s =
      if contains_text name s.pub_layers
      then s
      else record (create (layer name) s) { pub_layers = name ∷ s.pub_layers }

  pub with_points : String → Server → Server
  unfolding create
  with_points name s =
      if contains_text name s.pub_point_maps
      then s
      else record (create (points name) s) { pub_point_maps = name ∷ s.pub_point_maps }

  pub with_gridmap : String → Server → Server
  unfolding create
  with_gridmap name s =
      if contains_text name s.pub_grid_maps
      then s
      else record (create (gridmap_metadata name) (create (gridmap name) s)) {
        pub_grid_maps = name ∷ s.pub_grid_maps;
      }

  -- The stamp is that of a new reading of the clock, not the one of the other messages.
  unfoldable pub pointmap_layer_to_msg : Header Stamp → Points → Result CloudMsg
  pointmap_layer_to_msg h pts =
      let h' = record h { stamp = next_stamp h.stamp pts } in
      elim (xyzirt_msg pts) [
        | some msg ↦ ok (msg h')
        | none ↦ elim (xyzi_msg pts) [
          | some msg ↦ ok (msg h')
          | none ↦ elim (simple_msg pts) [ some msg ↦ ok (msg h') | none ↦ err unexpected_class ]
        ]
      ]

  publish_points : Header Stamp → String → Option Points → Server → Outcome
  unfolding with_points publish pointmap_layer_to_msg
  publish_points h name none s = (s, ok tt)
  publish_points h name (some pts) s =
      let s' = with_points name s in
      elim (pointmap_layer_to_msg h pts) [
        | err e ↦ (s', err e)
        | ok msg ↦ (publish (points name) (cloud msg) s', ok tt)
      ]

  publish_voxels : Header Stamp → String → Layer → Server → Server
  unfolding with_points publish
  publish_voxels h name l s = elim (as_voxels l) [
    | none ↦ s
    | some vxl ↦
        publish (points name) (cloud (occupied_msg (occupied_voxels vxl) h)) (with_points name s)
  ]

  publish_gridmap : Header Stamp → String → Layer → Server → Server
  unfolding with_gridmap publish
  publish_gridmap h name l s = elim (as_grid l) [
    | none ↦ s
    | some g ↦
        let msg = grid_msg g h in
        publish (gridmap_metadata name) (metadata (info msg))
          (publish (gridmap name) (grid msg) (with_gridmap name s))
  ]

  -- What follows, unless an exception has left the handler.
  and_then : Outcome → (Server → Outcome) → Outcome
  and_then (s, err e) f = (s, err e)
  and_then (s, ok _) f = f s

  -- The body of the loop over the layers.
  pub publish_layer : Header Stamp → String × Layer → Server → Outcome
  unfolding with_layer publish publish_points publish_voxels publish_gridmap and_then
  publish_layer h (name, l) s =
      and_then
        (publish_points h name (as_points l) (publish (layer name) (object l) (with_layer name s)))
        (λ s'. (publish_gridmap h name l (publish_voxels h name l s'), ok tt))

  pub publish_layers : Header Stamp → List (String × Layer) → Server → Outcome
  unfolding publish_layer and_then
  publish_layers h [] s = (s, ok tt)
  publish_layers h (l ∷ ls) s = and_then (publish_layer h l s) (publish_layers h ls)

  pub publish_map : Stamp → Server → Outcome
  unfolding with_whole_map publish publish_layers
  publish_map now s =
      publish_layers (record { stamp = now; frame_id = s.frame_id }) s.layers
        (publish whole_map (whole s.layers) (with_whole_map s))
