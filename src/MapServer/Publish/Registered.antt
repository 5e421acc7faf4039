-- ===== src/MapServer/Publish/Registered.antt =====
-- The publishers that a server has created, and that it knows of.
use Prim.Native.String.{String}
use mrpt_navigation.Base.{
  Bool, true, false, ◌||◌, List, [], ◌∷◌, ◌++◌, All, All-append, All-mono, ◌≡◌, ◌↔◌, refl, ap, ◌∙◌,
  arith, if◌then◌else◌, same_text, same_text_iff,
}
use mrpt_navigation.MapServer.Library.{Maps}
use mrpt_navigation.MapServer.Publish.{
  Publisher, whole_map, layer, points, gridmap, gridmap_metadata, Message, Server, contains_text,
  publish,
}

abbrev pub same_publisher : Publisher → Publisher → Bool
same_publisher whole_map whole_map = true
same_publisher (layer a) (layer b) = same_text a b
same_publisher (points a) (points b) = same_text a b
same_publisher (gridmap a) (gridmap b) = same_text a b
same_publisher (gridmap_metadata a) (gridmap_metadata b) = same_text a b
same_publisher _ _ = false

same_publisher_iff : (p q : Publisher) → (same_publisher p q ≡ true) ↔ (p ≡ q)
same_publisher_iff whole_map whole_map = (λ h. refl, λ h. refl)
same_publisher_iff (layer a) (layer b) =
    (λ h. ap layer ((same_text_iff a b).0 h), λ h. (same_text_iff a b).1 (cc))
same_publisher_iff (points a) (points b) =
    (λ h. ap points ((same_text_iff a b).0 h), λ h. (same_text_iff a b).1 (cc))
same_publisher_iff (gridmap a) (gridmap b) =
    (λ h. ap gridmap ((same_text_iff a b).0 h), λ h. (same_text_iff a b).1 (cc))
same_publisher_iff (gridmap_metadata a) (gridmap_metadata b) =
    (λ h. ap gridmap_metadata ((same_text_iff a b).0 h), λ h. (same_text_iff a b).1 (cc))
same_publisher_iff _ _ = (λ h. cc, λ h. cc)

abbrev pub has : Publisher → List (Publisher × String) → Bool
has p [] = false
has p ((q, topic) ∷ ps) = same_publisher p q || has p ps

-- No publisher occurs twice.
abbrev pub Unique : List (Publisher × String) → Type 0
Unique [] = Unit
Unique ((p, topic) ∷ ps) = (has p ps ≡ false) × Unique ps

has-append :
    (q p : Publisher) (topic : String) (ps : List (Publisher × String))
    → has q (ps ++ (p, topic) ∷ []) ≡ (same_publisher q p || has q ps)
has-append q p topic [] = refl
has-append q p topic ((r, t) ∷ ps) = ground (arith, has-append q p topic ps)

Unique-append :
    (p : Publisher) (topic : String) (ps : List (Publisher × String))
    → Unique ps
    → has p ps ≡ false
    → Unique (ps ++ (p, topic) ∷ [])
Unique-append p topic [] u h = (refl, tt)
Unique-append p topic ((q, t) ∷ ps) u h = ground (
  arith,
  has-append q p topic ps,
  Unique-append p topic ps,
  same_publisher_iff p q,
  same_publisher_iff q p,
)

or-true : (b : Bool) → (b || true) ≡ true
or-true b = ground arith

module _ (maps : Maps) where
  open maps use {Stamp, Layer, Points, as_points, as_voxels, as_grid, grid_msg, info}

  -- The publishers that the server's maps know of.
  abbrev pub known : Server maps → Publisher → Bool
  known s whole_map = s.pub_mm
  known s (layer name) = contains_text name s.pub_layers
  known s (points name) = contains_text name s.pub_point_maps
  known s (gridmap name) = contains_text name s.pub_grid_maps
  known s (gridmap_metadata name) = contains_text name s.pub_grid_maps

  -- What has been created is unique and is what is known, and every message had its publisher.
  pub record Registered (created : List (Publisher × String))
      (published : List (Publisher × Message maps)) (knows : Publisher → Bool) : Type 0 where
    pub unique : Unique created
    pub exact : (p : Publisher) → has p created ≡ knows p
    pub complete : All (λ m. has m.0 created ≡ true) published

  abbrev pub IsRegistered : Server maps → Type 0
  IsRegistered s = Registered s.created s.published (known s)

  pub Registered-create :
      (p : Publisher) (topic : String) (created : List (Publisher × String))
      (published : List (Publisher × Message maps)) (knows knows' : Publisher → Bool)
      → knows p ≡ false
      → ((q : Publisher) → (same_publisher q p || knows q) ≡ knows' q)
      → Registered created published knows
      → Registered (created ++ (p, topic) ∷ []) published knows'
  Registered-create p topic created published knows knows' fresh grows v = record {
    unique = Unique-append p topic created v.unique (v.exact p ∙ fresh);
    exact =
        λ q. has-append q p topic created ∙ ap (λ b. same_publisher q p || b) (v.exact q) ∙ grows q;
    complete =
        All-mono
          (λ m h.
            has-append m.0 p topic created
            ∙ ap (λ b. same_publisher m.0 p || b) h
            ∙ or-true (same_publisher m.0 p))
          published v.complete;
  }

  pub publish-IsRegistered :
      (p : Publisher) (m : Message maps) (s : Server maps)
      → known s p ≡ true
      → IsRegistered s
      → IsRegistered (publish maps p m s)
  unfolding publish
  publish-IsRegistered p m s there v = record {
    unique = v.unique;
    exact = v.exact;
    complete = All-append _ s.published ((p, m) ∷ []) v.complete (v.exact p ∙ there, tt);
  }

  pub same_text_refl : (s : String) → same_text s s ≡ true
  same_text_refl s = (same_text_iff s s).1 refl

  -- The publisher is registered after its creation at the first use.
  abbrev pub Ready : Publisher → Server maps → Type 0
  Ready p s = IsRegistered s × (known s p ≡ true)

  pub if-Ready :
      (p : Publisher) (b : Bool) (s t : Server maps)
      → (b ≡ true → Ready p s)
      → (b ≡ false → Ready p t)
      → Ready p (if b then s else t)
  if-Ready p true s t old new = old refl
  if-Ready p false s t old new = new refl
