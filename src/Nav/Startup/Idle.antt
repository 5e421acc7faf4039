-- ===== src/Nav/Startup/Idle.antt =====
-- A navigation node that has started, until its first command.
use Prim.Native.String.{String}
use mrpt_navigation.Base.{
  false, none, List, [], ◌∷◌, ◌≡◌, refl, sym, ap, ◌∙◌, IfOk, bind-IfOk, any-IfOk, assert-IfOk,
  Bool-cases, inl, inr, subst, true, ok, Result, assert, ◌>>◌, Bool, arith, length, ◌==◌, ◌⊎◌,
  same_text, value_or,
}
use mrpt_navigation.Nav.Library.{Mrpt}
use mrpt_navigation.Nav.Node.{Node}
use mrpt_navigation.Nav.Node.Verdicts.{last_verdict}
use mrpt_navigation.Nav.Commands.{on_set_robot_shape}
use mrpt_navigation.Nav.Commands.Ended.{Quiet, on_all_quiet, on_all_quiet-Agrees}
use mrpt_navigation.Nav.Startup.{
  RosParameters, Configuration, read_parameters, shape_of_config, shapes_received, with_shape,
  configured, new_reactive_nav,
}

module _ (mrpt : Mrpt) (library : Configuration mrpt) where
  open mrpt use {Real, Engine, ratio, positive}
  open library use {Config, read_vector, config_file, load_config_file, enable_log_file, exists}

  abbrev file_of : RosParameters Real → String
  file_of p = value_or p.cfg_file_reactive "reactive2d_config.ini"

  abbrev logging_engine : RosParameters Real → Engine
  logging_engine p =
      enable_log_file (value_or p.save_nav_log false) (read_parameters mrpt library p).rnav_engine

  -- A node that has neither moved nor ended a navigation.
  pub record IsIdle (n : Node mrpt) : Type 0 where
    pub not_initialized : n.initialized ≡ false
    pub no_events : n.events ≡ []
    pub no_speeds : n.cmd_vel ≡ []
    pub no_verdict : n.current_nav_ended_successfully ≡ none

  shapes_received-IsIdle :
      (shapes : List (List (Real × Real × Real))) (n : Node mrpt)
      → IsIdle n
      → IsIdle (shapes_received mrpt library shapes n)
  unfolding shapes_received on_set_robot_shape
  shapes_received-IsIdle [] n idle = idle
  shapes_received-IsIdle (s ∷ ss) n idle =
      shapes_received-IsIdle ss (on_set_robot_shape mrpt s n) (record {
        not_initialized = idle.not_initialized;
        no_events = idle.no_events;
        no_speeds = idle.no_speeds;
        no_verdict = idle.no_verdict;
      })

  -- Another engine makes no difference.
  engine-IsIdle :
      (n : Node mrpt) (e : mrpt.Engine) → IsIdle n → IsIdle (record n { rnav_engine = e })
  engine-IsIdle n e idle = record {
    not_initialized = idle.not_initialized;
    no_events = idle.no_events;
    no_speeds = idle.no_speeds;
    no_verdict = idle.no_verdict;
  }

  with_shape-IsIdle :
      (p : RosParameters Real) (shapes : List (List (Real × Real × Real))) (file : String)
      (n : Node mrpt)
      → IsIdle n
      → IfOk IsIdle (with_shape mrpt library p shapes file n)
  unfolding with_shape
  with_shape-IsIdle p shapes file n idle =
      elim (Bool-cases (same_text (value_or p.topic_robot_shape "") "")) [
        | inl from_file ↦
            rw (from_file, with_shape)
              (bind-IfOk (λ c. Unit {0}) IsIdle (config_file file) _ (any-IfOk (config_file file))
                (λ c h.
                  bind-IfOk (λ e. Unit {0}) IsIdle (shape_of_config mrpt library c n.rnav_engine) _
                    (any-IfOk _) (λ e k. engine-IsIdle n e idle)))
        | inr from_topic ↦ rw (from_topic, with_shape) (shapes_received-IsIdle shapes n idle)
      ]

  configured-IsIdle :
      (p : RosParameters Real) (file : String) (n : Node mrpt)
      → IsIdle n
      → IfOk IsIdle (configured mrpt library p file n)
  unfolding configured
  configured-IsIdle p file n idle = elim (Bool-cases (same_text file "")) [
    | inl nameless ↦ rw (nameless, configured) tt
    | inr named ↦ elim (Bool-cases (exists file)) [
      | inr missing ↦ rw (named, configured, missing) tt
      | inl there ↦
          rw (named, configured, there)
            (bind-IfOk (λ c. Unit {0}) IsIdle (config_file file) _ (any-IfOk (config_file file))
              (λ c h.
                bind-IfOk (λ e. Unit {0}) IsIdle (load_config_file c _) _ (any-IfOk _)
                  (λ e k. engine-IsIdle n e idle)))
    ]
  ]

  new_reactive_nav-IsIdle :
      (p : RosParameters Real) (shapes : List (List (Real × Real × Real)))
      → IfOk IsIdle (new_reactive_nav mrpt library p shapes)
  unfolding new_reactive_nav read_parameters
  new_reactive_nav-IsIdle p shapes =
      let file = value_or p.cfg_file_reactive "reactive2d_config.ini" in
      assert-IfOk IsIdle (positive (value_or p.nav_period (ratio 1 10))) _ (
        bind-IfOk IsIdle IsIdle (configured mrpt library p file (read_parameters mrpt library p)) _
          (configured-IsIdle p file (read_parameters mrpt library p) (record {
            not_initialized = refl;
            no_events = refl;
            no_speeds = refl;
            no_verdict = refl;
          }))
          (λ n idle. with_shape-IsIdle p shapes file n idle))

  -- What happens to an idle node is all that its flag tells of.
  idle_flag :
      (qs : List (Quiet mrpt)) (n : Node mrpt)
      → IsIdle n
      → let m = on_all_quiet mrpt qs n in
        m.current_nav_ended_successfully ≡ last_verdict m.events none
  idle_flag qs n idle =
      let (new, published, told) =
        on_all_quiet-Agrees mrpt [] none qs n ([], idle.no_events, idle.no_verdict) in
      told ∙ ap (λ es. last_verdict es none) (sym published)

  -- What the constructor asks of the parameters and the files.
  pub record IsStartable (p : RosParameters Real) : Type 0 where
    pub period : positive (value_or p.nav_period (ratio 1 10)) ≡ true
    pub named : same_text (file_of p) "" ≡ false
    pub there : exists (file_of p) ≡ true
    pub config : Config
    pub parsed : config_file (file_of p) ≡ ok config
    pub engine : Engine
    pub loaded : load_config_file config (logging_engine p) ≡ ok engine
    pub shape :
        (same_text (value_or p.topic_robot_shape "") "" ≡ false)
        ⊎ ((length (read_vector config "RobotModel_shape2D_xs")
              == length (read_vector config "RobotModel_shape2D_ys"))
            ≡ true)

  startable-configured :
      (p : RosParameters Real) (h : IsStartable p)
      → configured mrpt library p (file_of p) (read_parameters mrpt library p)
        ≡ ok (record (read_parameters mrpt library p) { rnav_engine = h.engine })
  unfolding configured
  startable-configured p h = rw (h.named, h.there, h.parsed, h.loaded) refl

  after_assert : {A : Type 0} (b : Bool) (rest : Result A) → b ≡ true → (assert b >> rest) ≡ rest
  after_assert b rest holds = rw (holds, assert) refl

  startable-shape_of_config :
      (c : Config) (e : Engine)
      → (length (read_vector c "RobotModel_shape2D_xs")
          == length (read_vector c "RobotModel_shape2D_ys"))
        ≡ true
      → (e' : Engine) × (shape_of_config mrpt library c e ≡ ok e')
  unfolding shape_of_config
  startable-shape_of_config c e as_many = (_, after_assert _ (ok _) as_many)

  startable-with_shape :
      (p : RosParameters Real) (shapes : List (List (Real × Real × Real))) (n : Node mrpt)
      → IsStartable p
      → (m : Node mrpt) × (with_shape mrpt library p shapes (file_of p) n ≡ ok m)
  unfolding with_shape
  startable-with_shape p shapes n h =
      elim (Bool-cases (same_text (value_or p.topic_robot_shape "") "")) [
        | inr from_topic ↦ (shapes_received mrpt library shapes n, rw (from_topic, with_shape) refl)
        | inl from_file ↦ elim h.shape [
          | inl from_topic ↦ ground (arith, from_file, from_topic)
          | inr as_many ↦
              let (e, shaped) = startable-shape_of_config h.config n.rnav_engine as_many in
              (record n { rnav_engine = e }, rw (from_file, with_shape, h.parsed, shaped) refl)
        ]
      ]

  startable-ok :
      (p : RosParameters Real) (shapes : List (List (Real × Real × Real)))
      → IsStartable p
      → (n : Node mrpt) × (new_reactive_nav mrpt library p shapes ≡ ok n)
  unfolding new_reactive_nav
  startable-ok p shapes h =
      let (m, shaped) =
        startable-with_shape p shapes
          (record (read_parameters mrpt library p) { rnav_engine = h.engine }) h in
      (m, rw (h.period, startable-configured p h) shaped)

  -- The constructor succeeds with a positive period, a file that is there and can be loaded, and a
  -- topic for the shape or as many ordinates as abscissas in the file. After any messages and timers,
  -- with no command yet, the flag that the actions poll is then the verdict of the last event
  -- published that ends a navigation, and is unset if there is none.
  pub new_reactive_nav-flag :
      (p : RosParameters Real) (shapes : List (List (Real × Real × Real)))
      → IsStartable p
      → (n : Node mrpt) × (new_reactive_nav mrpt library p shapes ≡ ok n)
        × ((qs : List (Quiet mrpt))
            → let m = on_all_quiet mrpt qs n in
              m.current_nav_ended_successfully ≡ last_verdict m.events none)
  new_reactive_nav-flag p shapes h =
      let (n, started) = startable-ok p shapes h in
      (
        n,
        started,
        λ qs. idle_flag qs n (subst (IfOk IsIdle) started (new_reactive_nav-IsIdle p shapes)),
      )
