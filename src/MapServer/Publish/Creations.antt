-- ===== src/MapServer/Publish/Creations.antt =====
-- The creation of each publisher at its first use.
use Prim.Native.String.{String}
use mrpt_navigation.Base.{Bool, true, ◌||◌, ◌∷◌, ◌≡◌, refl, ap, same_text}
use mrpt_navigation.MapServer.Library.{Maps}
use mrpt_navigation.MapServer.Publish.{
  Publisher, whole_map, layer, points, gridmap, gridmap_metadata, Server, contains_text, create,
  with_whole_map, with_layer, with_points, with_gridmap,
}
use mrpt_navigation.MapServer.Publish.Registered.{
  same_publisher, known, IsRegistered, Registered-create, same_text_refl, Ready, if-Ready,
}

module _ (maps : Maps) where
  open maps use {Stamp, Layer, Points, as_points, as_voxels, as_grid, grid_msg, info}

  whole_map-known :
      (s : Server maps)
      → (q : Publisher)
      → (same_publisher q whole_map || known maps s q)
        ≡ known maps (record (create maps whole_map s) { pub_mm = true }) q
  unfolding create
  whole_map-known s whole_map = refl
  whole_map-known s (layer _) = refl
  whole_map-known s (points _) = refl
  whole_map-known s (gridmap _) = refl
  whole_map-known s (gridmap_metadata _) = refl

  pub with_whole_map-IsRegistered :
      (s : Server maps) → IsRegistered maps s → Ready maps whole_map (with_whole_map maps s)
  unfolding with_whole_map create
  with_whole_map-IsRegistered s v =
      if-Ready maps whole_map s.pub_mm s (record (create maps whole_map s) { pub_mm = true })
        (λ there. (v, there))
        (λ fresh. (
          Registered-create maps whole_map _ s.created s.published (known maps s) _ fresh
              (whole_map-known s) v,
          refl,
        ))

  layer-known :
      (name : String) (s : Server maps)
      → (q : Publisher)
      → (same_publisher q (layer name) || known maps s q)
        ≡ known maps (record (create maps (layer name) s) { pub_layers = name ∷ s.pub_layers }) q
  unfolding create
  layer-known name s whole_map = refl
  layer-known name s (layer _) = refl
  layer-known name s (points _) = refl
  layer-known name s (gridmap _) = refl
  layer-known name s (gridmap_metadata _) = refl

  pub with_layer-IsRegistered :
      (name : String) (s : Server maps)
      → IsRegistered maps s
      → Ready maps (layer name) (with_layer maps name s)
  unfolding with_layer create
  with_layer-IsRegistered name s v =
      if-Ready maps (layer name) (contains_text name s.pub_layers) s
        (record (create maps (layer name) s) { pub_layers = name ∷ s.pub_layers })
        (λ there. (v, there))
        (λ fresh. (
          Registered-create maps (layer name) _ s.created s.published (known maps s) _ fresh
              (layer-known name s) v,
          ap (λ b. b || contains_text name s.pub_layers) (same_text_refl maps name),
        ))

  points-known :
      (name : String) (s : Server maps)
      → (q : Publisher)
      → (same_publisher q (points name) || known maps s q)
        ≡ known maps
            (record (create maps (points name) s) { pub_point_maps = name ∷ s.pub_point_maps })
            q
  unfolding create
  points-known name s whole_map = refl
  points-known name s (layer _) = refl
  points-known name s (points _) = refl
  points-known name s (gridmap _) = refl
  points-known name s (gridmap_metadata _) = refl

  pub with_points-IsRegistered :
      (name : String) (s : Server maps)
      → IsRegistered maps s
      → Ready maps (points name) (with_points maps name s)
  unfolding with_points create
  with_points-IsRegistered name s v =
      if-Ready maps (points name) (contains_text name s.pub_point_maps) s
        (record (create maps (points name) s) { pub_point_maps = name ∷ s.pub_point_maps })
        (λ there. (v, there))
        (λ fresh. (
          Registered-create maps (points name) _ s.created s.published (known maps s) _ fresh
              (points-known name s) v,
          ap (λ b. b || contains_text name s.pub_point_maps) (same_text_refl maps name),
        ))

  -- Between the two creations of `with_gridmap`.
  known_half : String → Server maps → Publisher → Bool
  known_half name s (gridmap a) = same_text a name || contains_text a s.pub_grid_maps
  known_half name s p = known maps s p

  gridmap-known :
      (name : String) (s : Server maps)
      → (q : Publisher) → (same_publisher q (gridmap name) || known maps s q) ≡ known_half name s q
  unfolding known_half
  gridmap-known name s whole_map = refl
  gridmap-known name s (layer _) = refl
  gridmap-known name s (points _) = refl
  gridmap-known name s (gridmap _) = refl
  gridmap-known name s (gridmap_metadata _) = refl

  gridmap_metadata-known :
      (name : String) (s : Server maps)
      → (q : Publisher)
      → (same_publisher q (gridmap_metadata name) || known_half name s q)
        ≡ known maps
            (record (create maps (gridmap_metadata name) (create maps (gridmap name) s)) {
              pub_grid_maps = name ∷ s.pub_grid_maps;
            })
            q
  unfolding create known_half
  gridmap_metadata-known name s whole_map = refl
  gridmap_metadata-known name s (layer _) = refl
  gridmap_metadata-known name s (points _) = refl
  gridmap_metadata-known name s (gridmap _) = refl
  gridmap_metadata-known name s (gridmap_metadata _) = refl

  pub with_gridmap-IsRegistered :
      (name : String) (s : Server maps)
      → IsRegistered maps s
      → Ready maps (gridmap name) (with_gridmap maps name s)
  unfolding with_gridmap create known_half
  with_gridmap-IsRegistered name s v =
      if-Ready maps (gridmap name) (contains_text name s.pub_grid_maps) s
        (record (create maps (gridmap_metadata name) (create maps (gridmap name) s)) {
          pub_grid_maps = name ∷ s.pub_grid_maps;
        })
        (λ there. (v, there))
        (λ fresh. (
          Registered-create maps (gridmap_metadata name) _ _ s.published (known_half name s) _ fresh
              (gridmap_metadata-known name s)
              (Registered-create maps (gridmap name) _ s.created s.published (known maps s) _ fresh
                (gridmap-known name s) v),
          ap (λ b. b || contains_text name s.pub_grid_maps) (same_text_refl maps name),
        ))
