-- ===== src/Rate/Counters.antt =====
-- The counters of `Rate`, and what the getters give before the first time steps.
use any_node.Base.{
  ℕ, suc, ◌+◌, ◌≤◌, ◌<◌, ◌^◌, ◌≡◌, refl, ◌∙◌, ap, arith, Bool, false, if◌then◌else◌, List, [], ◌∷◌,
  length, Bool-cases, inl, inr,
}
use any_node.Double.{Double, literal}
use any_node.Rate.Timespec.{Timespec}
use any_node.Rate.Options.{RateOptions}
use any_node.Rate.Defs.{
  Rate, u32, sleep, wake, check_thresholds, advance, reset, get_awake_time, get_awake_time_mean,
  get_awake_time_var,
}
use any_node.Rate.Schedule.{Readings, sleeps, options-sleep}

add_error :
    (b : Bool) (e m : ℕ) {e' n : ℕ}
    → e' ≡ (if b then u32 (e + 1) else e)
    → n ≡ u32 (e' + m)
    → n ≡ u32 (e + ((if b then 1 else 0) + m))
add_error b e m p q = ground arith

add_warning :
    (b c : Bool) (e m : ℕ) {e' n : ℕ}
    → e' ≡ (if b then e else if c then u32 (e + 1) else e)
    → n ≡ u32 (e' + m)
    → n ≡ u32 (e + ((if b then 0 else if c then 1 else 0) + m))
add_warning b c e m p q = ground arith

module _ {D : Type 0} ⦃d : Double D⦄ where
  -- The awake times that the calls measure, in their order.
  unfoldable pub awake_times : Rate D → List Readings → List D
  awake_times r [] = []
  awake_times r (c ∷ cs) = (sleep r c.0 c.1).0.awake_time ∷ awake_times (sleep r c.0 c.1).0 cs

  abbrev pub over : RateOptions D → D → D → Bool
  over o factor x = d.lt (d.mul factor o.time_step) x

  -- How many awake times exceed the threshold for errors, and how many only that for warnings.
  pub errors_among : RateOptions D → List D → ℕ
  errors_among o [] = 0
  errors_among o (x ∷ xs) = (if over o o.max_factor_error x then 1 else 0) + errors_among o xs

  pub warnings_among : RateOptions D → List D → ℕ
  warnings_among o [] = 0
  warnings_among o (x ∷ xs) =
      (if over o o.max_factor_error x then 0 else if over o o.max_factor_warning x then 1 else 0)
      + warnings_among o xs

  -- The counters of `q` after one call on `r` that measured the awake time `x`.
  record Counted (r q : Rate D) (n : ℕ) (x : D) : Type 0 where
    awake : q.awake_time ≡ x
    steps : q.num_time_steps ≡ n
    errors :
        q.num_errors
        ≡ (if over r.options r.max_factor_error x then u32 (r.num_errors + 1) else r.num_errors)
    warnings : q.num_warnings ≡ (
        if over r.options r.max_factor_error x
        then r.num_warnings
        else if over r.options r.max_factor_warning x
        then u32 (r.num_warnings + 1)
        else r.num_warnings)

  check_thresholds_counts :
      (r : Rate D) → Counted r (check_thresholds r).0 r.num_time_steps r.awake_time
  unfolding check_thresholds
  check_thresholds_counts r = ground arith

  advance_counts :
      (r p : Rate D) (later : Timespec) {n : ℕ} {x : D}
      → Counted r p n x
      → let q = (advance p later).0 in Counted r q n q.awake_time
  unfolding advance
  advance_counts r p later v = ground arith

  sleep_counts :
      (r : Rate D) (now later : Timespec)
      → d.eq r.time_step (literal 0) ≡ false
      → let q = (sleep r now later).0 in Counted r q (u32 (r.num_time_steps + 1)) q.awake_time
  unfolding sleep wake
  sleep_counts r now later h =
      let woken = check_thresholds_counts (wake r now) in
      let measured : Counted r (check_thresholds (wake r now)).0 (u32 (r.num_time_steps + 1))
          (wake r now).awake_time =
        record {
          awake = woken.awake;
          steps = woken.steps;
          errors = woken.errors;
          warnings = woken.warnings;
        } in
      rw h (advance_counts r (check_thresholds (wake r now)).0 later measured)

  -- The counters are values of an `unsigned int`.
  record IsCounting (r : Rate D) : Type 0 where
    steps : r.num_time_steps < 2 ^ 32
    errors : r.num_errors < 2 ^ 32
    warnings : r.num_warnings < 2 ^ 32

  Counted-IsCounting :
      (r q : Rate D) {x : D}
      → IsCounting r
      → Counted r q (u32 (r.num_time_steps + 1)) x
      → IsCounting q
  Counted-IsCounting r q v c = ground arith

  counters_from :
      (r : Rate D) (cs : List Readings)
      → d.eq r.time_step (literal 0) ≡ false
      → IsCounting r
      → let q = sleeps r cs in
        let xs = awake_times r cs in
        (q.num_time_steps ≡ u32 (r.num_time_steps + length cs))
        × (q.num_errors ≡ u32 (r.num_errors + errors_among r.options xs))
        × (q.num_warnings ≡ u32 (r.num_warnings + warnings_among r.options xs))
  unfolding sleeps awake_times errors_among warnings_among
  counters_from r [] h v = omega arith
  counters_from r (c ∷ cs) h v =
      let q = (sleep r c.0 c.1).0 in
      let one = sleep_counts r c.0 c.1 h in
      let kept = options-sleep r c.0 c.1 in
      let rest = counters_from q cs (rw kept h) (Counted-IsCounting r q v one) in
      let es = ap (λ o. errors_among o (awake_times q cs)) kept in
      let ws = ap (λ o. warnings_among o (awake_times q cs)) kept in
      (
        omega (arith, rest.0, one.steps),
        add_error (over r.options r.max_factor_error q.awake_time) r.num_errors
            (errors_among r.options (awake_times q cs)) one.errors
            (rest.1 ∙ ap (λ n. u32 (q.num_errors + n)) es),
        add_warning (over r.options r.max_factor_error q.awake_time)
            (over r.options r.max_factor_warning q.awake_time) r.num_warnings
            (warnings_among r.options (awake_times q cs)) one.warnings
            (rest.2 ∙ ap (λ n. u32 (q.num_warnings + n)) ws),
      )

  errors-add-warnings-le :
      (o : RateOptions D) (xs : List D) → errors_among o xs + warnings_among o xs ≤ length xs
  unfolding errors_among warnings_among
  errors-add-warnings-le o [] = omega arith
  errors-add-warnings-le o (x ∷ xs) = ground (arith, errors-add-warnings-le o xs)

  length-awake_times : (r : Rate D) (cs : List Readings) → length (awake_times r cs) ≡ length cs
  unfolding awake_times
  length-awake_times r [] = refl
  length-awake_times r (c ∷ cs) = ap suc (length-awake_times (sleep r c.0 c.1).0 cs)

  -- From a reset on, with a time step other than 0: the counters are the numbers of calls, of
  -- awake times over the threshold for errors, and of those over that for warnings only, as
  -- 32-bit numbers; and no call counts as both.
  pub counters_lem :
      (r : Rate D) (now : Timespec) (cs : List Readings)
      → d.eq r.time_step (literal 0) ≡ false
      → let q = sleeps (reset r now) cs in
        let xs = awake_times (reset r now) cs in
        (q.num_time_steps ≡ u32 (length cs))
        × (q.num_errors ≡ u32 (errors_among r.options xs))
        × (q.num_warnings ≡ u32 (warnings_among r.options xs))
        × (errors_among r.options xs + warnings_among r.options xs ≤ length cs)
  unfolding reset
  counters_lem r now cs h =
      let start = reset r now in
      let xs = awake_times start cs in
      let c = counters_from start cs h (omega arith) in
      (
        omega (arith, c.0),
        omega (arith, c.1),
        omega (arith, c.2),
        omega (arith, errors-add-warnings-le r.options xs, length-awake_times start cs),
      )

  num_time_steps-sleep :
      (r : Rate D) (now later : Timespec)
      → (sleep r now later).0.num_time_steps ≡ u32 (r.num_time_steps + 1)
  unfolding sleep wake
  num_time_steps-sleep r now later = elim (Bool-cases (d.eq r.time_step (literal 0))) [
    | inl untimed ↦ rw untimed
    | inr timed ↦ (sleep_counts r now later timed).steps
  ]

  -- Before the first call the getters give NaN, after one call the variance still does, whatever
  -- was counted before the reset.
  pub getters-reset :
      (r : Rate D) (t now later : Timespec)
      → let s = reset r t in
        let q = (sleep s now later).0 in
        (get_awake_time s ≡ d.quiet_nan)
        × (get_awake_time_mean s ≡ d.quiet_nan)
        × (get_awake_time_var s ≡ d.quiet_nan)
        × (get_awake_time q ≡ q.awake_time)
        × (get_awake_time_var q ≡ d.quiet_nan)
  unfolding get_awake_time get_awake_time_mean get_awake_time_var reset
  getters-reset r t now later =
      let n = num_time_steps-sleep (reset r t) now later in
      (refl, refl, refl, ground (arith, n), ground (arith, n))
