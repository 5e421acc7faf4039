-- ===== src/Examples/PfLoading.antt =====
-- The loader on a file laid out like params/default.config.yaml of mrpt_pf_localization.
use mrpt_navigation.Base.{
  none, some, List, [], ◌∷◌, ◌>>=◌, ok, err, null_pointer, ◌≢◌, ◌≡◌, refl, arith,
}
use mrpt_navigation.Pf.Parameters.{Parameters}
use mrpt_navigation.Pf.Yaml.{as_enum, required, optional, child}
use mrpt_navigation.Pf.FilterOptions.{load_pf_options, load_kld_options}
use mrpt_navigation.Pf.Loading.{
  load_motion_model_2d, load_initial_pose, load_relocalization, override, load_from,
}
use mrpt_navigation.Pf.Loading.Sections.{load_from-motion_models}
use mrpt_navigation.Pf.State.{Core, new_core}
use mrpt_navigation.Pf.WellFormed.{IsWellFormed}
use mrpt_navigation.Pf.Running.Stages.{NeverNull}
use mrpt_navigation.Pf.Api.{
  Call, observes, steps, sets_map, step, after_all, init_from_yaml, with_pipeline,
}
use mrpt_navigation.Pf.Api.Histories.{after_all-IsSafe}
use mrpt_navigation.Examples.Toy.{toy, engine, Tree, nothing, number, word, entry}
use mrpt_navigation.Examples.PfStates.{parameters, scan, mapped}

abbrev nested : Tree
nested =
    entry "modelSelection" (word "mmGaussian")
      (entry "gaussianModel" (entry "a1" (number 7) (entry "minStdXY" (number 2) nothing)) nothing)

abbrev flat : Tree
flat =
    entry "modelSelection" (word "mmGaussian")
      (entry "gaussianModel" nothing (entry "a1" (number 9) nothing))

abbrev pub file : Tree
file = entry "use_se3_pf" (word "false") (
    entry "motion_model_2d" nested (
      entry "motion_model_no_odom_2d" flat
        (entry "pf_options" nothing (entry "kld_options" nothing nothing))))

abbrev loaded : Parameters toy
loaded = record parameters {
  motion_model_2d = record (parameters.motion_model_2d) { selection = 1; a1 = 9 };
}

load_from-motion_models_example :
    (loaded.motion_model_no_odom_2d ≡ parameters.motion_model_no_odom_2d)
    × ((do
      with_odom ← child toy file "motion_model_2d"
      first ← load_motion_model_2d toy with_odom parameters.motion_model_2d
      no_odom ← child toy file "motion_model_no_odom_2d"
      load_motion_model_2d toy no_odom first)
        ≡ ok loaded.motion_model_2d)
unfolding as_enum required optional child load_motion_model_2d load_initial_pose load_pf_options
    load_kld_options load_relocalization override load_from
load_from-motion_models_example = load_from-motion_models toy file parameters {new = loaded} refl

abbrev pub quiet : NeverNull toy engine
quiet = record {
  planar_step = λ o p a sf e. cc;
  spatial_step = λ o p a sf e. cc;
  relocalization = λ input given e. ground (arith, given, e);
}

abbrev day : List (Call toy)
day = sets_map mapped none [] ∷ steps ∷ steps ∷ observes (some scan) ∷ steps ∷ steps ∷ []

-- A section without filters, which gives an ICP.
abbrev pub pipeline : Tree
pipeline = entry "icp" (word "default") nothing

abbrev pub started : Core toy
started = new_core toy (record loaded { relocalization_icp = some tt })

after_all-IsSafe_example :
    IsWellFormed toy (after_all toy engine day started)
    × ((step toy engine (after_all toy engine day started)).1 ≢ err null_pointer)
unfolding as_enum required optional child load_motion_model_2d load_initial_pose load_pf_options
    load_kld_options load_relocalization override load_from init_from_yaml with_pipeline
after_all-IsSafe_example =
    after_all-IsSafe toy engine quiet parameters file pipeline day {c = started} refl refl
      (λ built. refl) refl
