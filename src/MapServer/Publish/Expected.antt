-- ===== src/MapServer/Publish/Expected.antt =====
-- What `publish_map` publishes, described without publishers.
use Prim.Native.String.{String}
use mrpt_navigation.Base.{
  Option, none, some, List, [], ◌∷◌, ◌++◌, Result, ok, err, ◌≡◌, refl, sym, ap, subst, ◌∙◌,
  append_assoc, append-nil, Result-cases, Option-cases, inl, inr, arith,
}
use mrpt_navigation.MapServer.Library.{Maps, Header}
use mrpt_navigation.MapServer.Publish.{
  Publisher, whole_map, layer, points, gridmap, gridmap_metadata, Message, whole, object, cloud,
  grid, metadata, Server, Outcome, create, publish, with_whole_map, with_layer, with_points,
  with_gridmap, pointmap_layer_to_msg, publish_points, publish_voxels, publish_gridmap, and_then,
  publish_layer, publish_layers, publish_map,
}

module _ (maps : Maps) where
  open maps use {
    Stamp, Layer, Points, as_points, as_voxels, occupied_voxels, as_grid, occupied_msg, grid_msg,
    info,
  }

  abbrev pub Publications : Type 0
  Publications = List (Publisher × Message maps)

  points_messages : Header Stamp → String → Option Points → Publications × Result (Unit {0})
  points_messages h name none = ([], ok tt)
  points_messages h name (some pts) = elim (pointmap_layer_to_msg maps h pts) [
    | err e ↦ ([], err e)
    | ok msg ↦ ((points name, cloud msg) ∷ [], ok tt)
  ]

  voxels_messages : Header Stamp → String → Layer → Publications
  voxels_messages h name l = elim (as_voxels l) [
    | none ↦ []
    | some vxl ↦ (points name, cloud (occupied_msg (occupied_voxels vxl) h)) ∷ []
  ]

  gridmap_messages : Header Stamp → String → Layer → Publications
  gridmap_messages h name l = elim (as_grid l) [
    | none ↦ []
    | some g ↦
        let msg = grid_msg g h in
        (gridmap name, grid msg) ∷ (gridmap_metadata name, metadata (info msg)) ∷ []
  ]

  -- One list of messages after another, unless an exception has ended the first.
  followed_by :
      Publications × Result (Unit {0})
      → Publications × Result (Unit {0})
      → Publications × Result (Unit {0})
  followed_by (ms, err e) next = (ms, err e)
  followed_by (ms, ok _) (ns, r) = (ms ++ ns, r)

  pub layer_messages : Header Stamp → String × Layer → Publications × Result (Unit {0})
  unfolding points_messages voxels_messages gridmap_messages followed_by
  layer_messages h (name, l) =
      followed_by ((layer name, object l) ∷ [], ok tt)
        (followed_by (points_messages h name (as_points l))
          (voxels_messages h name l ++ gridmap_messages h name l, ok tt))

  pub messages : Header Stamp → List (String × Layer) → Publications × Result (Unit {0})
  unfolding layer_messages followed_by
  messages h [] = ([], ok tt)
  messages h (l ∷ ls) = followed_by (layer_messages h l) (messages h ls)

  -- An outcome has published these messages after what was there, and ends as they do.
  abbrev Sent : Publications → Publications × Result (Unit {0}) → Outcome maps → Type 0
  Sent before (ms, r) o = (o.0.published ≡ before ++ ms) × (o.1 ≡ r)

  with_points-published :
      (name : String) (s : Server maps) → (with_points maps name s).published ≡ s.published
  unfolding with_points create
  with_points-published name s = ground arith

  publish_points-Sent :
      (h : Header Stamp) (name : String) (pts : Option Points) (s : Server maps)
      → Sent s.published (points_messages h name pts) (publish_points maps h name pts s)
  unfolding publish_points points_messages publish
  publish_points-Sent h name none s = (sym (append-nil s.published), refl)
  publish_points-Sent h name (some pts) s =
      let kept = with_points-published name s in
      elim (Result-cases (pointmap_layer_to_msg maps h pts)) [
        | inl (msg, done) ↦ rw (done, publish_points, points_messages, kept) (refl, refl)
        | inr (e, thrown) ↦
            rw (thrown, publish_points, points_messages, kept) (sym (append-nil s.published), refl)
      ]

  publish_voxels-published :
      (h : Header Stamp) (name : String) (l : Layer) (s : Server maps)
      → (publish_voxels maps h name l s).published ≡ s.published ++ voxels_messages h name l
  unfolding publish_voxels voxels_messages publish
  publish_voxels-published h name l s =
      let kept = with_points-published name s in
      elim (Option-cases (as_voxels l)) [
        | inl other ↦ rw (other, publish_voxels, voxels_messages) (sym (append-nil s.published))
        | inr (vxl, there) ↦ rw (there, publish_voxels, voxels_messages, kept) refl
      ]

  with_gridmap-published :
      (name : String) (s : Server maps) → (with_gridmap maps name s).published ≡ s.published
  unfolding with_gridmap create
  with_gridmap-published name s = ground arith

  publish_gridmap-published :
      (h : Header Stamp) (name : String) (l : Layer) (s : Server maps)
      → (publish_gridmap maps h name l s).published ≡ s.published ++ gridmap_messages h name l
  unfolding publish_gridmap gridmap_messages publish
  publish_gridmap-published h name l s =
      let kept = with_gridmap-published name s in
      elim (Option-cases (as_grid l)) [
        | inl other ↦ rw (other, publish_gridmap, gridmap_messages) (sym (append-nil s.published))
        | inr (g, there) ↦
            rw (there, publish_gridmap, gridmap_messages, kept) (append_assoc s.published _ _)
      ]

  -- The messages of two stages, one after the other.
  and_then-Sent :
      (before : Publications) (m m' : Publications × Result (Unit {0})) (o : Outcome maps)
      (f : Server maps → Outcome maps)
      → Sent before m o
      → ((s : Server maps) → Sent s.published m' (f s))
      → Sent before (followed_by m m') (and_then maps o f)
  unfolding followed_by and_then
  and_then-Sent before (ms, err e) m' (s, ok _) f (sent, ends) rest = cc
  and_then-Sent before (ms, err e) m' (s, err e') f sent rest = sent
  and_then-Sent before (ms, ok _) m' (s, err e') f (sent, ends) rest = cc
  and_then-Sent before (ms, ok _) (ns, r) (s, ok _) f (sent, ends) rest =
      ((rest s).0 ∙ ap (λ (p : Publications). p ++ ns) sent ∙ append_assoc before ms ns, (rest s).1)

  with_layer-published :
      (name : String) (s : Server maps) → (with_layer maps name s).published ≡ s.published
  unfolding with_layer create
  with_layer-published name s = ground arith

  Sent-after :
      (before first : Publications) (m : Publications × Result (Unit {0})) (o : Outcome maps)
      → Sent (before ++ first) m o
      → Sent before (followed_by (first, ok tt) m) o
  unfolding followed_by
  Sent-after before first (ms, r) o (sent, ends) = (sent ∙ append_assoc before first ms, ends)

  publish_grids-Sent :
      (h : Header Stamp) (name : String) (l : Layer) (s : Server maps)
      → Sent s.published
          (voxels_messages h name l ++ gridmap_messages h name l, ok tt)
          (publish_gridmap maps h name l (publish_voxels maps h name l s), ok tt)
  publish_grids-Sent h name l s = (
    publish_gridmap-published h name l (publish_voxels maps h name l s)
        ∙ ap (λ (p : Publications). p ++ gridmap_messages h name l)
            (publish_voxels-published h name l s)
        ∙ append_assoc s.published (voxels_messages h name l) (gridmap_messages h name l),
    refl,
  )

  publish_layer-Sent :
      (h : Header Stamp) (l : String × Layer) (s : Server maps)
      → Sent s.published (layer_messages h l) (publish_layer maps h l s)
  unfolding publish_layer layer_messages publish
  publish_layer-Sent h (name, l) s =
      let s' = publish maps (layer name) (object l) (with_layer maps name s) in
      let kept : s'.published ≡ s.published ++ (layer name, object l) ∷ [] =
        ap (λ (p : Publications). p ++ (layer name, object l) ∷ []) (with_layer-published name s) in
      let rest : Publications × Result (Unit {0}) =
        (voxels_messages h name l ++ gridmap_messages h name l, ok tt) in
      let sent =
        and_then-Sent s'.published (points_messages h name (as_points l)) rest
          (publish_points maps h name (as_points l) s')
          (λ u. (publish_gridmap maps h name l (publish_voxels maps h name l u), ok tt))
          (publish_points-Sent h name (as_points l) s') (publish_grids-Sent h name l) in
      let m = followed_by (points_messages h name (as_points l)) rest in
      let o = publish_layer maps h (name, l) s in
      Sent-after s.published ((layer name, object l) ∷ []) m o
        (subst (λ before. Sent before m o) kept sent)

  publish_layers-Sent :
      (h : Header Stamp) (ls : List (String × Layer)) (s : Server maps)
      → Sent s.published (messages h ls) (publish_layers maps h ls s)
  unfolding publish_layers messages
  publish_layers-Sent h [] s = (sym (append-nil s.published), refl)
  publish_layers-Sent h (l ∷ ls) s =
      and_then-Sent s.published (layer_messages h l) (messages h ls) (publish_layer maps h l s)
        (publish_layers maps h ls) (publish_layer-Sent h l s) (publish_layers-Sent h ls)

  with_whole_map-published : (s : Server maps) → (with_whole_map maps s).published ≡ s.published
  unfolding with_whole_map create
  with_whole_map-published s = ground arith

  -- Whichever publishers there are, `publish_map` sends the whole map, and then the messages of the
  -- layers in their order up to the first layer of points of another class, where it throws.
  pub publish_map-messages :
      (now : Stamp) (s : Server maps)
      → let ms = messages (record { stamp = now; frame_id = s.frame_id }) s.layers in
        ((publish_map maps now s).0.published ≡ s.published ++ (whole_map, whole s.layers) ∷ ms.0)
        × ((publish_map maps now s).1 ≡ ms.1)
  unfolding publish_map publish
  publish_map-messages now s =
      let h : Header Stamp = record { stamp = now; frame_id = s.frame_id } in
      let s' = publish maps whole_map (whole s.layers) (with_whole_map maps s) in
      let kept : s'.published ≡ s.published ++ (whole_map, whole s.layers) ∷ [] =
        ap (λ (p : Publications). p ++ (whole_map, whole s.layers) ∷ [])
          (with_whole_map-published s) in
      let (sent, ends) = publish_layers-Sent h s.layers s' in
      (
        sent
            ∙ ap (λ (p : Publications). p ++ (messages h s.layers).0) kept
            ∙ append_assoc s.published _ _,
        ends,
      )
