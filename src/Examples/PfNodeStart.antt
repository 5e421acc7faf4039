-- ===== src/Examples/PfNodeStart.antt =====
-- The start of the localization node on nested parameters.
use Prim.Native.Nat.{ℕ}
use Prim.Native.String.{String}
use mrpt_navigation.Base.{
  true, false, some, List, [], ◌∷◌, ok, err, bad_cast, ◌≡◌, refl, ◌⊎◌, All, arith, none,
  null_pointer, ◌≢◌, same_text, if◌then◌else◌,
}
use mrpt_navigation.PfNode.Parameters.{
  Numbers, ParameterValue, double_value, bool_value, integer_value, other_value, double, scalar,
  YamlMap, empty, entry, insert, params_block,
}
use mrpt_navigation.PfNode.Parameters.Paths.{path_of}
use mrpt_navigation.PfNode.Parameters.Found.{blocked}
use mrpt_navigation.PfNode.Parameters.RoundTrip.{IsFound, insert-Outcome, params_block-IsFound}
use mrpt_navigation.Pf.Yaml.{as_enum, required, optional, child}
use mrpt_navigation.Pf.FilterOptions.{load_pf_options, load_kld_options}
use mrpt_navigation.Pf.Loading.{
  load_motion_model_2d, load_initial_pose, load_relocalization, override, load_from,
}
use mrpt_navigation.Pf.Api.{init_from_yaml, with_pipeline}
use mrpt_navigation.PfNode.Node.{new_node}
use mrpt_navigation.PfNode.Loop.{loop_timer, on_event, on_events}
use mrpt_navigation.PfNode.Startup.{
  default_parameters, Files, initialpose, map_object, odometry, laser, gnss, Created,
  reload_params_from_ros, new_localization_node,
}
use mrpt_navigation.PfNode.Startup.Alive.{new_localization_node-no_null}
use mrpt_navigation.Examples.Toy.{Tree, nothing, number, word, toy, engine}
use mrpt_navigation.Examples.PfStates.{parameters}
use mrpt_navigation.Examples.PfLoading.{file, pipeline, quiet, started}
use mrpt_navigation.Examples.PfNodeEvents.{ros, run}

abbrev numbers : Numbers
numbers = record { Real = ℕ; Integer = ℕ; Int = ℕ; to_int = λ i. i }

abbrev params : List (String × ParameterValue numbers)
params =
    ("rate_hz", double_value 5)
    ∷ ("pf_options.adaptive", bool_value true)
    ∷ ("pf_options.kld.bins", integer_value 3)
    ∷ ("topics", other_value)
    ∷ []

abbrev block : YamlMap numbers
block = entry "rate_hz" (scalar (double 5)) empty

insert-Outcome_example :
    ((blocked numbers (path_of "rate_hz.x") block ≡ true)
      × (insert numbers 10 "rate_hz.x" (bool_value true) block ≡ some (err bad_cast)))
    ⊎ ((m : YamlMap numbers) × (blocked numbers (path_of "rate_hz.x") block ≡ false)
        × (insert numbers 10 "rate_hz.x" (bool_value true) block ≡ some (ok m))
        × IsFound numbers m ("rate_hz.x", bool_value true))
insert-Outcome_example = insert-Outcome numbers 10 "rate_hz.x" (bool_value true) block (omega arith)

params_block-IsFound_example :
    (m : YamlMap numbers) × (params_block numbers params empty ≡ some (ok m))
    × All (IsFound numbers m) params
unfolding path_of
params_block-IsFound_example =
    params_block-IsFound numbers params
      ((refl, (refl, (refl, tt))), ((refl, (refl, tt)), ((refl, tt), (tt, tt))))

-- The tree that the YAML reader has for the parameters.
abbrev given : Tree
given = Tree.entry "transform_tolerance" (number 5) (
    Tree.entry "topic_sensors_2d_scan" (word "scan")
      (Tree.entry "relocalization_params_file" (word "relocalization.yaml") file))

abbrev files : Files toy ros numbers
files = record {
  of_block = λ block. given;
  empty_config = nothing;
  load_file = λ name. ok pipeline;
  tokenize = λ s. if same_text s "" then [] else s ∷ [];
}

abbrev created : Created toy ros numbers files
created = record {
  core = started;
  params = record (default_parameters toy ros) {
    transform_tolerance = 5;
    topic_sensors_2d_scan = "scan";
  };
  subscriptions =
      initialpose "/initialpose"
      ∷ map_object "/mrpt_map/metric_map"
      ∷ odometry "/odom"
      ∷ laser "scan"
      ∷ gnss "/gps"
      ∷ [];
  loop_period = 500000;
  tf_period = 0;
}

new_localization_node-no_null_example :
    (on_event toy engine ros
      (loop_timer true true none)
      (on_events toy engine ros run (new_node toy ros started 5))).1
    ≢ err null_pointer
unfolding as_enum required optional child load_motion_model_2d load_initial_pose load_pf_options
    load_kld_options load_relocalization override load_from init_from_yaml with_pipeline
    new_localization_node reload_params_from_ros
new_localization_node-no_null_example =
    new_localization_node-no_null toy ros numbers files engine quiet [] parameters run
      (loop_timer true true none) {n = created} refl refl
      (λ block config nested got built. ground (arith, got)) refl
