-- ===== src/Nav/Markers/Bounds.antt =====
-- Which steps of a path are drawn.
use Prim.Native.String.{String}
use mrpt_navigation.Base.{
  ℕ, zero, suc, ◌+◌, ◌-◌, ◌^◌, ◌<◌, some, List, ok, ◌≡◌, refl, ap, ◌∙◌, arith, length, get_elem?,
  Option-cases, inl, inr,
}
use mrpt_navigation.Nav.Library.{Mrpt, LogRecord}
use mrpt_navigation.Nav.Markers.{
  Marker, before_last, smaller_size, num_steps_to_draw, path_points, line, log_to_margers,
}

module _ (mrpt : Mrpt) where
  open mrpt use {
    Real, ratio, over, to_size, Engine, alpha_index, step_count, step_duration, path_pose,
  }

  path_points-length : (pose : ℕ → Real × Real) (i n : ℕ) → length (path_points mrpt pose i n) ≡ n
  unfolding path_points
  path_points-length pose i zero = refl
  path_points-length pose i (suc n) = ap suc (path_points-length pose (suc i) n)

  path_points-get :
      (pose : ℕ → Real × Real) (i n j : ℕ)
      → j < n
      → get_elem? (path_points mrpt pose i n) j ≡ some (pose (i + j))
  unfolding path_points
  path_points-get pose i zero j h = absurd (omega (arith, h))
  path_points-get pose i (suc n) zero h = ap (λ m. some (pose m)) (omega arith)
  path_points-get pose i (suc n) (suc j) h =
      path_points-get pose (suc i) n j (omega arith) ∙ ap (λ m. some (pose m)) (omega arith)

  num_steps_to_draw-below : (n : ℕ) (d : Real) → 0 < n → n < 2 ^ 64 → num_steps_to_draw mrpt n d < n
  unfolding num_steps_to_draw before_last smaller_size
  num_steps_to_draw-below n d h k = ground arith

  num_steps_to_draw-empty :
      (d : Real)
      → to_size (over (ratio 2 1) d) < 2 ^ 64 - 1
      → num_steps_to_draw mrpt 0 d ≡ to_size (over (ratio 2 1) d)
  unfolding num_steps_to_draw before_last smaller_size
  num_steps_to_draw-empty d h = ground arith

  -- What `log_to_margers` draws of the path of a PTG in a direction.
  pub record Drawn (e : Engine) (ptg k : ℕ) (points : List (Real × Real)) : Type 0 where
    pub in_order : (j : ℕ) → j < length points → get_elem? points j ≡ some (path_pose e ptg k j)
    pub within :
        0 < step_count e ptg k → step_count e ptg k < 2 ^ 64 → length points < step_count e ptg k
    pub at_most_two_seconds :
        step_count e ptg k ≡ 0
        → to_size (over (ratio 2 1) (step_duration e ptg)) < 2 ^ 64 - 1
        → length points ≡ to_size (over (ratio 2 1) (step_duration e ptg))

  path_points-Drawn :
      (e : Engine) (ptg k : ℕ)
      → Drawn e ptg k (
          path_points mrpt
            (path_pose e ptg k)
            0
            (num_steps_to_draw mrpt (step_count e ptg k) (step_duration e ptg)))
  path_points-Drawn e ptg k =
      let n = num_steps_to_draw mrpt (step_count e ptg k) (step_duration e ptg) in
      let l = path_points-length (path_pose e ptg k) 0 n in
      record {
        in_order = λ j h.
            path_points-get (path_pose e ptg k) 0 n j (omega (arith, l, h))
            ∙ ap (λ i. some (path_pose e ptg k i)) (omega arith);
        within = λ h1 h2.
            omega
              (arith, l, num_steps_to_draw-below (step_count e ptg k) (step_duration e ptg) h1 h2);
        at_most_two_seconds = λ h1 h2.
            l
            ∙ ap (λ s. num_steps_to_draw mrpt s (step_duration e ptg)) h1
            ∙ num_steps_to_draw-empty (step_duration e ptg) h2;
      }

  line-Drawn :
      (frame : String) (e : Engine) (ptg : ℕ) (d : Real) {m : Marker mrpt}
      → line mrpt frame e ptg d ≡ ok (some m)
      → (m.frame_id ≡ frame) × Drawn e ptg (alpha_index e ptg d) m.points
  unfolding line
  line-Drawn frame e ptg d h = ground (arith, path_points-Drawn e ptg (alpha_index e ptg d))

  -- A marker is drawn only for a selected PTG that is there, with its desired direction on record.
  -- Its points are the first positions of that path, and stay within a path that has steps; of a
  -- path without any, `n - 1` wraps around, and it draws two seconds of positions all the same.
  pub log_to_margers-Drawn :
      (frame : String) (e : Engine) (lr : LogRecord Real) {m : Marker mrpt}
      → log_to_margers mrpt frame e lr ≡ ok (some m)
      → (i : ℕ) × (d : Real) × (lr.selected ≡ some i)
        × (i < lr.n_ptgs)
        × (get_elem? lr.desired_direction i ≡ some d)
        × (m.frame_id ≡ frame)
        × Drawn e i (alpha_index e i d) m.points
  unfolding log_to_margers
  log_to_margers-Drawn frame e lr {m} h = elim (Option-cases lr.selected) [
    | inl unset ↦ cc (h, unset)
    | inr (i, chosen) ↦ elim (Option-cases (get_elem? lr.desired_direction i)) [
      | inl beyond ↦ absurd (ground arith)
      | inr (d, there) ↦
          let drawn : line mrpt frame e i d ≡ ok (some m) = ground arith in
          let (f, g) = line-Drawn frame e i d drawn in (i, d, chosen, ground arith, there, f, g)
    ]
  ]
