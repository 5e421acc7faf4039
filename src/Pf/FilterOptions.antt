-- ===== src/Pf/FilterOptions.antt =====
-- The sections `pf_options` and `kld_options` of `load_from`.
use mrpt_navigation.Base.{Result, ok, ◌>>=◌}
use mrpt_navigation.Pf.Library.{Mrpt}
use mrpt_navigation.Pf.Yaml.{as_enum, optional}
use mrpt_navigation.Pf.Parameters.{PfOptions, KldOptions}

module _ (mrpt : Mrpt) where
  open mrpt use {
    Real, Node, has, at, is_map, is_scalar, as_bool, as_size, as_real, as_text, deg2rad, pose3,
    diagonal, ratio, times, pi, selection2_of, selection3_of, algorithm_of, resampling_of,
    likelihood_points_from, likelihood_grid_from,
  }

  unfoldable pub load_pf_options : Node → PfOptions mrpt → Result (PfOptions mrpt)
  load_pf_options pfo old = do
    beta ← optional mrpt as_real pfo "BETA" old.beta
    algorithm ← optional mrpt (as_enum as_text algorithm_of) pfo "PF_algorithm" old.algorithm
    resampling ← optional mrpt (as_enum as_text resampling_of) pfo "resamplingMethod" old.resampling
    adaptive ← optional mrpt as_bool pfo "adaptiveSampleSize" old.adaptive_sample_size
    search ←
        optional mrpt as_size pfo "pfAuxFilterOptimal_MaximumSearchSamples"
          old.maximum_search_samples
    power ← optional mrpt as_real pfo "powFactor" old.pow_factor
    range ← optional mrpt as_real pfo "max_loglikelihood_dyn_range" old.max_loglikelihood_dyn_range
    first ←
        optional mrpt as_bool pfo "pfAuxFilterStandard_FirstStageWeightsMonteCarlo"
          old.first_stage_weights_monte_carlo
    mle ← optional mrpt as_bool pfo "pfAuxFilterOptimal_MLE" old.optimal_mle
    ok (record {
      beta = beta;
      algorithm = algorithm;
      resampling = resampling;
      adaptive_sample_size = adaptive;
      maximum_search_samples = search;
      pow_factor = power;
      max_loglikelihood_dyn_range = range;
      first_stage_weights_monte_carlo = first;
      optimal_mle = mle;
    })

  unfoldable pub load_kld_options : Node → KldOptions mrpt → Result (KldOptions mrpt)
  load_kld_options kldo old = do
    xy ← optional mrpt as_real kldo "KLD_binSize_XY" old.bin_size_xy
    phi ← optional mrpt as_real kldo "KLD_binSize_PHI" old.bin_size_phi
    delta ← optional mrpt as_real kldo "KLD_delta" old.delta
    epsilon ← optional mrpt as_real kldo "KLD_epsilon" old.epsilon
    most ← optional mrpt as_size kldo "KLD_maxSampleSize" old.max_sample_size
    least ← optional mrpt as_size kldo "KLD_minSampleSize" old.min_sample_size
    per_bin ← optional mrpt as_real kldo "KLD_minSamplesPerBin" old.min_samples_per_bin
    ok (record {
      bin_size_xy = xy;
      bin_size_phi = phi;
      delta = delta;
      epsilon = epsilon;
      max_sample_size = most;
      min_sample_size = least;
      min_samples_per_bin = per_bin;
    })
