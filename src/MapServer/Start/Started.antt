-- ===== src/MapServer/Start/Started.antt =====
-- A map server that has started.
use Prim.Native.String.{String}
use mrpt_navigation.Base.{List, [], ◌∷◌, Result, ok, err, ◌≡◌, refl}
use mrpt_navigation.MapServer.Library.{Maps}
use mrpt_navigation.MapServer.Publish.{
  Publisher, whole_map, layer, points, gridmap, gridmap_metadata, whole, Outcome,
}
use mrpt_navigation.MapServer.Publish.Registered.{has, known, IsRegistered}
use mrpt_navigation.MapServer.Publish.Expected.{messages}
use mrpt_navigation.MapServer.Start.{Files, Parameters, new_server, read_layers}

module _ (maps : Maps) (files : Files maps) where
  open maps use {Stamp, Layer}

  new_server-known :
      (p : Parameters maps) (ls : List (String × Layer)) (q : Publisher)
      → has q [] ≡ known maps (new_server maps p ls) q
  new_server-known p ls whole_map = refl
  new_server-known p ls (layer _) = refl
  new_server-known p ls (points _) = refl
  new_server-known p ls (gridmap _) = refl
  new_server-known p ls (gridmap_metadata _) = refl

  pub new_server-IsRegistered :
      (p : Parameters maps) (ls : List (String × Layer)) → IsRegistered maps (new_server maps p ls)
  new_server-IsRegistered p ls = record {
    unique = tt;
    exact = new_server-known p ls;
    complete = tt;
  }

  -- What the start of a server comes to: a file that cannot be read ends it; else its publishers
  -- are registered and it has published its whole map and what its layers ask for.
  abbrev pub HasStarted : Stamp → Parameters maps → Result (Outcome maps) → Type 0
  HasStarted now p (err e) = read_layers maps files p ≡ err e
  HasStarted now p (ok (s, r)) =
      (ls : List (String × Layer)) × (read_layers maps files p ≡ ok ls)
      × IsRegistered maps s
      × (let ms = messages maps (record { stamp = now; frame_id = p.frame_id }) ls in
          (s.published ≡ (whole_map, whole ls) ∷ ms.0) × (r ≡ ms.1))
