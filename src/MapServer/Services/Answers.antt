-- ===== src/MapServer/Services/Answers.antt =====
-- What the services of the map server answer.
use Prim.Native.String.{String}
use mrpt_navigation.Base.{
  Bool, true, false, ◌||◌, Option, none, some, List, [], ◌∷◌, map, Result, ok, err,
  unexpected_class, ◌≡◌, ◌⊎◌, refl, Option-cases, inl, inr, arith, has_value, if◌then◌else◌,
}
use mrpt_navigation.MapServer.Library.{Maps, Header}
use mrpt_navigation.MapServer.Publish.{Server, contains_text, pointmap_layer_to_msg}
use mrpt_navigation.MapServer.Services.{
  find_layer, srv_map_layers, srv_get_gridmap, srv_get_pointmap,
}

module _ (maps : Maps) where
  open maps use {Stamp, Layer, Points, as_grid, as_points, xyzirt_msg, xyzi_msg, simple_msg}

  -- One of the classes of points that have a message.
  abbrev pub can_send : Points → Bool
  can_send p = has_value (xyzirt_msg p) || has_value (xyzi_msg p) || has_value (simple_msg p)

  abbrev pub has_cloud : Option Points → Bool
  has_cloud none = false
  has_cloud (some p) = can_send p

  abbrev pub thrown : Option Points → Result (Unit {0})
  thrown none = ok tt
  thrown (some p) = if can_send p then ok tt else err unexpected_class

  find_layer-contains :
      (name : String) (ls : List (String × Layer))
      → contains_text name (map (λ p. p.0) ls) ≡ has_value (find_layer maps name ls)
  unfolding find_layer
  find_layer-contains name [] = refl
  find_layer-contains name ((k, l) ∷ ls) = ground (arith, find_layer-contains name ls)

  pointmap_layer_to_msg-can_send :
      (h : Header Stamp) (p : Points)
      → ((msg : maps.CloudMsg) × (pointmap_layer_to_msg maps h p ≡ ok msg) × (can_send p ≡ true))
        ⊎ ((pointmap_layer_to_msg maps h p ≡ err unexpected_class) × (can_send p ≡ false))
  unfolding pointmap_layer_to_msg
  pointmap_layer_to_msg-can_send h p = elim (Option-cases (xyzirt_msg p)) [
    | inr (f, first) ↦ inl (
      f (record h { stamp = maps.next_stamp h.stamp p }),
      rw (first, pointmap_layer_to_msg) refl,
      rw first refl,
    )
    | inl no_first ↦ elim (Option-cases (xyzi_msg p)) [
      | inr (f, second) ↦ inl (
        f (record h { stamp = maps.next_stamp h.stamp p }),
        rw (no_first, second, pointmap_layer_to_msg) refl,
        rw (no_first, second) refl,
      )
      | inl no_second ↦ elim (Option-cases (simple_msg p)) [
        | inr (f, third) ↦ inl (
          f (record h { stamp = maps.next_stamp h.stamp p }),
          rw (no_first, no_second, third, pointmap_layer_to_msg) refl,
          rw (no_first, no_second, third) refl,
        )
        | inl no_third ↦ inr (
          rw (no_first, no_second, no_third, pointmap_layer_to_msg) refl,
          rw (no_first, no_second, no_third) refl,
        )
      ]
    ]
  ]

  srv_get_pointmap-found :
      (now : Stamp) (name : String) (s : Server maps) (l : Layer)
      → find_layer maps name s.layers ≡ some l
      → ((srv_get_pointmap maps now name s).0.valid ≡ has_cloud (as_points l))
        × ((srv_get_pointmap maps now name s).1 ≡ thrown (as_points l))
  unfolding srv_get_pointmap
  srv_get_pointmap-found now name s l there = elim (Option-cases (as_points l)) [
    | inl other ↦ rw (there, srv_get_pointmap, other) (refl, refl)
    | inr (pts, cast) ↦
        let h : Header Stamp = record { stamp = now; frame_id = s.frame_id } in
        elim (pointmap_layer_to_msg-can_send h pts) [
          | inl (msg, done, can) ↦ rw (there, srv_get_pointmap, cast, done, can) (refl, refl)
          | inr (failed, cannot) ↦ rw (there, srv_get_pointmap, cast, failed, cannot) (refl, refl)
        ]
  ]

  -- A name is on the list of layers exactly if there is such a layer. For any other name both
  -- services answer that they have nothing; for a layer the one is valid if it is a grid map, and
  -- the other if it is a cloud of one of three classes, and throws at a cloud of another class.
  pub services-Answers :
      (now : Stamp) (name : String) (s : Server maps)
      → ((contains_text name (srv_map_layers maps s) ≡ false)
          × ((srv_get_gridmap maps now name s).valid ≡ false)
          × ((srv_get_pointmap maps now name s).0.valid ≡ false)
          × ((srv_get_pointmap maps now name s).1 ≡ ok tt))
        ⊎ ((l : Layer) × (contains_text name (srv_map_layers maps s) ≡ true)
            × (find_layer maps name s.layers ≡ some l)
            × ((srv_get_gridmap maps now name s).valid ≡ has_value (as_grid l))
            × ((srv_get_pointmap maps now name s).0.valid ≡ has_cloud (as_points l))
            × ((srv_get_pointmap maps now name s).1 ≡ thrown (as_points l)))
  unfolding srv_get_gridmap srv_get_pointmap srv_map_layers
  services-Answers now name s =
      let listed = find_layer-contains name s.layers in
      elim (Option-cases (find_layer maps name s.layers)) [
        | inl missing ↦ inl (
          rw missing at listed,
          rw (missing, srv_get_gridmap) refl,
          rw (missing, srv_get_pointmap) refl,
          rw (missing, srv_get_pointmap) refl,
        )
        | inr (l, there) ↦
            let (valid, ends) = srv_get_pointmap-found now name s l there in
            let grid : (srv_get_gridmap maps now name s).valid ≡ has_value (as_grid l) =
              elim (Option-cases (as_grid l)) [
                | inl other ↦ rw (there, srv_get_gridmap, other) refl
                | inr (g, cast) ↦ rw (there, srv_get_gridmap, cast) refl
              ] in
            inr (l, rw there at listed, there, grid, valid, ends)
      ]
