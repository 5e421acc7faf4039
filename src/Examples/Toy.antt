-- ===== src/Examples/Toy.antt =====
-- A small world for the examples: numbers for reals, labels and classes, triples for poses, and
-- a tree for YAML.
use Prim.Native.Nat.{ℕ, ◌+◌, ◌-◌, ◌*◌, ◌/◌}
use Prim.Native.String.{String}
use mrpt_navigation.Base.{
  Bool, true, false, Option, none, some, [], ◌∷◌, ltb, same_text, has_value, ok, err, null_pointer,
  if◌then◌else◌,
}
use mrpt_navigation.Base.StdMap.{nat_key}
use mrpt_navigation.Pf.Library.{Double, Yaml, Mrpt}
use mrpt_navigation.Pf.State.{Engine}

abbrev pub Triple : Type 0
Triple = ℕ × ℕ × ℕ

pub data Tree : Type 0 where
  nothing : Tree
  number : ℕ → Tree
  word : String → Tree
  entry : String → Tree → Tree → Tree

abbrev pub get : Tree → String → Option Tree
get nothing key = none
get (number n) key = none
get (word s) key = none
get (entry k v rest) key = let below = get rest key in if same_text k key then some v else below

abbrev pub as_number : Tree → Option ℕ
as_number (number n) = some n
as_number _ = none

abbrev pub as_word : Tree → Option String
as_word (word s) = some s
as_word _ = none

abbrev pub as_flag : Tree → Option Bool
as_flag (word s) = some (same_text s "true")
as_flag _ = none

abbrev pub is_section : Tree → Bool
is_section (entry _ _ _) = true
is_section _ = false

abbrev pub is_nothing : Tree → Bool
is_nothing nothing = true
is_nothing _ = false

abbrev pub is_leaf : Tree → Bool
is_leaf (number _) = true
is_leaf (word _) = true
is_leaf _ = false

-- An observation: label, class, time stamp, and the pose if it is odometry.
pub record Reading : Type 0 where
  pub label : ℕ
  pub kind : ℕ
  pub stamp : ℕ
  pub odometry : Option Triple

abbrev pub numbers : Double
numbers = record {
  Real = ℕ;
  ratio = λ n d. n / d;
  of_size = λ n. n;
  negate = λ n. 0;
  plus = λ a b. a + b;
  minus = λ a b. a - b;
  times = λ a b. a * b;
  over = λ a b. a / b;
  square_root = λ a. a;
  larger = λ a b. if ltb a b then b else a;
  smaller = λ a b. if ltb a b then a else b;
  pi = 3;
  to_size = λ n. n;
  round = λ n. n;
}

abbrev pub trees : Yaml ℕ
trees = record {
  Node = Tree;
  has = λ t k. has_value (get t k);
  at = get;
  is_map = is_section;
  is_scalar = is_leaf;
  as_bool = as_flag;
  as_size = as_number;
  as_real = as_number;
  as_text = as_word;
}

abbrev pub toy : Mrpt
toy = record {
  double = numbers;
  yaml = trees;
  deg2rad = λ d. d;
  Pose2 = Triple;
  pose2 = λ a b c. (a, b, c);
  x2 = λ p. p.0;
  y2 = λ p. p.1;
  phi = λ p. p.2;
  normalize_phi = λ p. p;
  identity2 = (0, 0, 0);
  relative2 = λ p q. (p.0 - q.0, p.1 - q.1, p.2 - q.2);
  Pose3 = Triple × Triple;
  pose3 = λ a b c d e f. ((a, b, c), (d, e, f));
  x = λ p. p.0.0;
  y = λ p. p.0.1;
  z = λ p. p.0.2;
  yaw = λ p. p.1.0;
  pitch = λ p. p.1.1;
  roll = λ p. p.1.2;
  identity3 = ((0, 0, 0), (0, 0, 0));
  flatten = λ p. (p.0.0, p.0.1, p.1.0);
  lift = λ p. ((p.0, p.1, 0), (p.2, 0, 0));
  norm3 = λ p. p.0.0 + p.0.1;
  Cov = ℕ → ℕ;
  diagonal = λ a b c d e f. λ i. a;
  cov_at = λ m i. m i;
  Label = ℕ;
  label_key = nat_key;
  ClassName = ℕ;
  class_key = nat_key;
  Stamp = ℕ;
  earlier = ltb;
  Obs = Reading;
  sensor_label = λ o. o.label;
  class_name = λ o. o.kind;
  timestamp = λ o. o.stamp;
  as_odometry = λ o. o.odometry;
  has_gga = λ o. false;
  Coords = Unit;
  gga_coords = λ o. none;
  Geo = Unit;
  to_map = λ g c. ((0, 0, 0), (0, 0, 0));
  gps_cov = λ o. none;
  gps_block = λ c v. c;
  Layer = ℕ;
  is_points = λ m. false;
  is_grid = λ m. false;
  PointLikelihood = Unit;
  GridLikelihood = Unit;
  set_point_likelihood = λ o m. m;
  set_grid_likelihood = λ o m. m;
  likelihood_points_from = λ n. tt;
  likelihood_grid_from = λ n. tt;
  can_compute_likelihood = λ m sf. true;
  grid_to_points = λ m. m;
  name_of_index = λ i. i;
  localmap_name = 100;
  ModelSelection2 = ℕ;
  selection2_of = λ s. some 1;
  ModelSelection3 = ℕ;
  selection3_of = λ s. some 1;
  Algorithm = ℕ;
  algorithm_of = λ s. some 1;
  Resampling = ℕ;
  resampling_of = λ s. some 1;
  Stats = Unit;
  no_stats = tt;
  draw_gaussian = λ i mean sigma. i + mean;
  have_mola = true;
  Icp = Unit;
  icp_from = λ n s. tt;
  ObsFilter = Unit;
  obs_filter_from = λ n. tt;
  is_empty_node = is_nothing;
  LocalMap = Unit;
  local_map_of = λ f os. tt;
  has_raw_points = λ m. true;
  grid_by_class = λ ms. none;
}

-- A filter that keeps its particles, and a relocalization that finds two poses.
abbrev pub engine : Engine toy
engine = record {
  reset_uniform2 = λ a b c d e f n. [];
  reset_uniform3 = λ lo hi n. [];
  reset_uniform_free_space = λ g t n a b c d e f. none;
  execute2 = λ o pdf action sf. ok (pdf.particles, tt);
  execute3 = λ o pdf action sf. ok (pdf.particles, tt);
  relocalize_se2 =
      λ input. if has_value input.icp then ok ((1, 2, 3) ∷ (4, 5, 6) ∷ []) else err null_pointer;
  draw_sample = λ g i. g.mean;
}
