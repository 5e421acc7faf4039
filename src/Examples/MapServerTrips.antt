-- ===== src/Examples/MapServerTrips.antt =====
-- A map server of three layers: points, a grid map, and points of a class that cannot be sent.
use Prim.Native.Nat.{ℕ, ◌+◌}
use mrpt_navigation.Base.{
  true, false, Option, none, some, [], ◌∷◌, ok, ◌≡◌, ◌⊎◌, ◌==◌, if◌then◌else◌, has_value,
}
use mrpt_navigation.MapServer.Library.{Maps}
use mrpt_navigation.MapServer.Publish.{Server, contains_text}
use mrpt_navigation.MapServer.Start.{Files}
use mrpt_navigation.MapServer.Services.{
  find_layer, srv_map_layers, srv_get_gridmap, srv_get_pointmap,
}
use mrpt_navigation.MapServer.Services.Answers.{has_cloud, thrown, services-Answers}

abbrev one_of : ℕ → ℕ → Option ℕ
one_of k l = if l == k then some l else none

-- Layer 1 is points, layer 2 a grid map, and every other one is points of an unknown class.
abbrev maps : Maps
maps = record {
  Stamp = ℕ;
  Layer = ℕ;
  Points = ℕ;
  as_points = λ l. if l == 2 then none else some l;
  Voxels = ℕ;
  as_voxels = λ l. none;
  occupied_voxels = λ v. v;
  Grid = ℕ;
  as_grid = one_of 2;
  CloudMsg = ℕ × ℕ;
  next_stamp = λ now p. now + p;
  xyzirt_msg = λ p. none;
  xyzi_msg = λ p. none;
  simple_msg = λ p. if p == 1 then some (λ h. (p, h.stamp)) else none;
  occupied_msg = λ p h. (p, h.stamp);
  GridMsg = ℕ × ℕ;
  grid_msg = λ g h. (g, h.stamp);
  MetaData = ℕ;
  info = λ m. m.0;
}

abbrev server : Server maps
server = record {
  layers = ("lidar", 1) ∷ ("grid", 2) ∷ ("other", 3) ∷ [];
  frame_id = "map";
  pub_mm_topic = "/mrpt_map";
  pub_mm = false;
  pub_layers = [];
  pub_point_maps = [];
  pub_grid_maps = [];
  created = [];
  published = [];
}

abbrev files : Files maps
files = record {
  exists = λ name. true;
  grid_of_yaml = λ name. 2;
  Object = ℕ;
  read_object = λ name. ok (some 1);
  as_metric_map = λ o. some o;
  layers_of_file = λ name. some server.layers;
}

services-Answers_example :
    ((contains_text "grid" (srv_map_layers maps server) ≡ false)
      × ((srv_get_gridmap maps 9 "grid" server).valid ≡ false)
      × ((srv_get_pointmap maps 9 "grid" server).0.valid ≡ false)
      × ((srv_get_pointmap maps 9 "grid" server).1 ≡ ok tt))
    ⊎ ((l : ℕ) × (contains_text "grid" (srv_map_layers maps server) ≡ true)
        × (find_layer maps "grid" server.layers ≡ some l)
        × ((srv_get_gridmap maps 9 "grid" server).valid ≡ has_value (maps.as_grid l))
        × ((srv_get_pointmap maps 9 "grid" server).0.valid ≡ has_cloud maps (maps.as_points l))
        × ((srv_get_pointmap maps 9 "grid" server).1 ≡ thrown maps (maps.as_points l)))
services-Answers_example = services-Answers maps 9 "grid" server
