-- ===== src/MapServer/Publish/Publishers.antt =====
-- Publishers of the map server are created once, and before their first message.
use Prim.Native.String.{String}
use mrpt_navigation.Base.{
  Option, none, some, List, [], ◌∷◌, ok, err, Result-cases, Option-cases, inl, inr,
}
use mrpt_navigation.MapServer.Library.{Maps, Header}
use mrpt_navigation.MapServer.Publish.{
  whole_map, layer, points, gridmap, gridmap_metadata, Server, Outcome, whole, object, publish,
  with_whole_map, with_layer, with_points, with_gridmap, pointmap_layer_to_msg, cloud, grid,
  metadata, publish_points, publish_voxels, publish_gridmap, and_then, publish_layer,
  publish_layers, publish_map,
}
use mrpt_navigation.MapServer.Publish.Registered.{IsRegistered, publish-IsRegistered}
use mrpt_navigation.MapServer.Publish.Creations.{
  with_whole_map-IsRegistered, with_layer-IsRegistered, with_points-IsRegistered,
  with_gridmap-IsRegistered,
}

module _ (maps : Maps) where
  open maps use {Stamp, Layer, Points, as_points, as_voxels, as_grid, grid_msg, info}

  publish_points-IsRegistered :
      (h : Header Stamp) (name : String) (pts : Option Points) (s : Server maps)
      → IsRegistered maps s
      → IsRegistered maps ((publish_points maps h name pts s).0)
  unfolding publish_points
  publish_points-IsRegistered h name none s v = v
  publish_points-IsRegistered h name (some pts) s v =
      let w = with_points-IsRegistered maps name s v in
      elim (Result-cases (pointmap_layer_to_msg maps h pts)) [
        | inl (msg, done) ↦
            rw (done, publish_points)
              (publish-IsRegistered maps (points name) (cloud msg) (with_points maps name s) w.1
                w.0)
        | inr (e, failed) ↦ rw (failed, publish_points) w.0
      ]

  publish_voxels-IsRegistered :
      (h : Header Stamp) (name : String) (l : Layer) (s : Server maps)
      → IsRegistered maps s
      → IsRegistered maps (publish_voxels maps h name l s)
  unfolding publish_voxels
  publish_voxels-IsRegistered h name l s v =
      let w = with_points-IsRegistered maps name s v in
      elim (Option-cases (as_voxels l)) [
        | inl other ↦ rw (other, publish_voxels) v
        | inr (vxl, cast) ↦
            rw (cast, publish_voxels)
              (publish-IsRegistered maps (points name) _ (with_points maps name s) w.1 w.0)
      ]

  publish_gridmap-IsRegistered :
      (h : Header Stamp) (name : String) (l : Layer) (s : Server maps)
      → IsRegistered maps s
      → IsRegistered maps (publish_gridmap maps h name l s)
  unfolding publish_gridmap publish
  publish_gridmap-IsRegistered h name l s v =
      let w = with_gridmap-IsRegistered maps name s v in
      elim (Option-cases (as_grid l)) [
        | inl other ↦ rw (other, publish_gridmap) v
        | inr (g, cast) ↦
            rw (cast, publish_gridmap)
              (publish-IsRegistered maps (gridmap_metadata name) (metadata (info (grid_msg g h)))
                (publish maps (gridmap name) (grid (grid_msg g h)) (with_gridmap maps name s)) w.1
                (publish-IsRegistered maps (gridmap name) (grid (grid_msg g h))
                  (with_gridmap maps name s) w.1 w.0))
      ]

  and_then-IsRegistered :
      (o : Outcome maps) (f : Server maps → Outcome maps)
      → IsRegistered maps (o.0)
      → ((s : Server maps) → IsRegistered maps s → IsRegistered maps ((f s).0))
      → IsRegistered maps ((and_then maps o f).0)
  unfolding and_then
  and_then-IsRegistered (s, err e) f v keeps = v
  and_then-IsRegistered (s, ok _) f v keeps = keeps s v

  publish_layer-IsRegistered :
      (h : Header Stamp) (l : String × Layer) (s : Server maps)
      → IsRegistered maps s
      → IsRegistered maps ((publish_layer maps h l s).0)
  unfolding publish_layer
  publish_layer-IsRegistered h (name, l) s v =
      let w = with_layer-IsRegistered maps name s v in
      let s1 : Server maps = publish maps (layer name) (object l) (with_layer maps name s) in
      and_then-IsRegistered (publish_points maps h name (as_points l) s1)
        (λ s'. (publish_gridmap maps h name l (publish_voxels maps h name l s'), ok tt))
        (publish_points-IsRegistered h name (as_points l) s1
          (publish-IsRegistered maps (layer name) (object l) (with_layer maps name s) w.1 w.0))
        (λ s' u.
          publish_gridmap-IsRegistered h name l (publish_voxels maps h name l s')
            (publish_voxels-IsRegistered h name l s' u))

  publish_layers-IsRegistered :
      (h : Header Stamp) (ls : List (String × Layer)) (s : Server maps)
      → IsRegistered maps s
      → IsRegistered maps ((publish_layers maps h ls s).0)
  unfolding publish_layers
  publish_layers-IsRegistered h [] s v = v
  publish_layers-IsRegistered h (l ∷ ls) s v =
      and_then-IsRegistered (publish_layer maps h l s) (publish_layers maps h ls)
        (publish_layer-IsRegistered h l s v) (publish_layers-IsRegistered h ls)

  -- If each publisher has been created at most once, those created are the ones that the maps of
  -- publishers know, and every message was sent by one that had been created, then this holds again
  -- after `publish_map`, whether or not an exception leaves it.
  pub publish_map-IsRegistered :
      (now : Stamp) (s : Server maps)
      → IsRegistered maps s
      → IsRegistered maps ((publish_map maps now s).0)
  unfolding publish_map
  publish_map-IsRegistered now s v =
      let w = with_whole_map-IsRegistered maps s v in
      publish_layers-IsRegistered (record { stamp = now; frame_id = s.frame_id }) s.layers
        (publish maps whole_map (whole s.layers) (with_whole_map maps s))
        (publish-IsRegistered maps whole_map (whole s.layers) (with_whole_map maps s) w.1 w.0)
