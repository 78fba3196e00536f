-- ===== src/Rate/Messages.antt =====
-- The messages that `Rate::sleep` prints, which a limit thins out.
use any_node.Base.{
  ◌≡◌, refl, sym, subst, ◌∙◌, ap, arith, Bool, true, false, ◌&&◌, not, if◌then◌else◌, List, [], ◌∷◌,
  ◌++◌,
}
use any_node.Double.{Double, literal}
use any_node.Rate.Timespec.{Timespec, get_duration}
use any_node.Rate.Defs.{
  Rate, SleepEffect, print_error, print_warning, sleep_until, sleep, wake, check_thresholds,
  advance,
}
use any_node.Rate.Schedule.{Readings, options-sleep}
use any_node.Rate.Counters.{over}

unfoldable pub prints_error : List SleepEffect → Bool
prints_error [] = false
prints_error (print_error n ∷ es) = true
prints_error (print_warning n ∷ es) = prints_error es
prints_error (sleep_until t ∷ es) = prints_error es

unfoldable pub prints_warning : List SleepEffect → Bool
prints_warning [] = false
prints_warning (print_error n ∷ es) = prints_warning es
prints_warning (print_warning n ∷ es) = true
prints_warning (sleep_until t ∷ es) = prints_warning es

prints_error-append :
    (es fs : List SleepEffect) → prints_error fs ≡ false → prints_error (es ++ fs) ≡ prints_error es
unfolding prints_error
prints_error-append [] fs h = h
prints_error-append (print_error n ∷ es) fs h = refl
prints_error-append (print_warning n ∷ es) fs h = prints_error-append es fs h
prints_error-append (sleep_until t ∷ es) fs h = prints_error-append es fs h

prints_warning-append :
    (es fs : List SleepEffect)
    → prints_warning fs ≡ false
    → prints_warning (es ++ fs) ≡ prints_warning es
unfolding prints_warning
prints_warning-append [] fs h = h
prints_warning-append (print_error n ∷ es) fs h = prints_warning-append es fs h
prints_warning-append (print_warning n ∷ es) fs h = refl
prints_warning-append (sleep_until t ∷ es) fs h = prints_warning-append es fs h

-- More than a second has passed.
abbrev pub is_long : (D : Type 0) ⦃d : Double D⦄ → Timespec → Timespec → Bool
is_long D ⦃d⦄ last t = d.lt (literal 1) (get_duration last t)

-- Of the points in time, those more than a second after the last that was kept.
pub thinned : (Timespec → Timespec → Bool) → Timespec → List Timespec → List Timespec
thinned long last [] = []
thinned long last (t ∷ ts) =
    let late = thinned long t ts in
    let early = thinned long last ts in if long last t then t ∷ late else early

-- The list that is kept, with one call before it.
keep :
    (is_over prints : Bool) (t last next : Timespec) (kept times : List Timespec)
    (long : Timespec → Timespec → Bool)
    → prints ≡ (is_over && long last t)
    → next ≡ (if prints then t else last)
    → kept ≡ thinned long next times
    → (if prints then t ∷ kept else kept) ≡ thinned long last (if is_over then t ∷ times else times)
unfolding thinned
keep false prints t last next kept times long e f g = ground arith
keep true prints t last next kept times long e f g = ground arith

module _ {D : Type 0} ⦃d : Double D⦄ where
  -- The starts of the calls that measure too long a time for an error, and for a warning only.
  pub error_times : Rate D → List Readings → List Timespec
  error_times r [] = []
  error_times r (c ∷ cs) =
      let q = (sleep r c.0 c.1).0 in
      let rest = error_times q cs in
      if over r.options r.max_factor_error q.awake_time then c.0 ∷ rest else rest

  pub warning_times : Rate D → List Readings → List Timespec
  warning_times r [] = []
  warning_times r (c ∷ cs) =
      let q = (sleep r c.0 c.1).0 in
      let rest = warning_times q cs in
      if not (over r.options r.max_factor_error q.awake_time)
        && over r.options r.max_factor_warning q.awake_time
      then c.0 ∷ rest
      else rest

  -- The starts of the calls that print.
  unfoldable pub error_prints : Rate D → List Readings → List Timespec
  error_prints r [] = []
  error_prints r (c ∷ cs) =
      let s = sleep r c.0 c.1 in
      let rest = error_prints s.0 cs in if prints_error s.1 then c.0 ∷ rest else rest

  unfoldable pub warning_prints : Rate D → List Readings → List Timespec
  warning_prints r [] = []
  warning_prints r (c ∷ cs) =
      let s = sleep r c.0 c.1 in
      let rest = warning_prints s.0 cs in if prints_warning s.1 then c.0 ∷ rest else rest

  -- What one call at `now` on `r` leaves in `q`, and prints.
  record Prints (r q : Rate D) (es : List SleepEffect) (now : Timespec) (x : D) : Type 0 where
    awake : q.awake_time ≡ x
    error :
        prints_error es
        ≡ (over r.options r.max_factor_error x && is_long D r.last_error_print_time now)
    last_error :
        q.last_error_print_time ≡ (if prints_error es then now else r.last_error_print_time)
    warning : prints_warning es ≡ (
        (not (over r.options r.max_factor_error x) && over r.options r.max_factor_warning x)
        && is_long D r.last_warning_print_time now)
    last_warning :
        q.last_warning_print_time ≡ (if prints_warning es then now else r.last_warning_print_time)

  check_thresholds-Prints :
      (r : Rate D) → let c = check_thresholds r in Prints r c.0 c.1 r.sleep_start_time r.awake_time
  unfolding check_thresholds prints_error prints_warning
  check_thresholds-Prints r = ground arith

  -- `advance` prints nothing.
  advance_quiet :
      (p : Rate D) (later : Timespec)
      → let a = advance p later in
        (prints_error a.1 ≡ false)
        × (prints_warning a.1 ≡ false)
        × (a.0.awake_time ≡ p.awake_time)
        × (a.0.last_error_print_time ≡ p.last_error_print_time)
        × (a.0.last_warning_print_time ≡ p.last_warning_print_time)
  unfolding advance prints_error prints_warning
  advance_quiet p later = ground arith

  advance-Prints :
      (r p : Rate D) (es : List SleepEffect) (now later : Timespec) {x : D}
      → Prints r p es now x
      → let a = advance p later in Prints r a.0 (es ++ a.1) now a.0.awake_time
  advance-Prints r p es now later v =
      let q = advance_quiet p later in
      let error = prints_error-append es (advance p later).1 q.0 in
      let warning = prints_warning-append es (advance p later).1 q.1 in
      subst (Prints r (advance p later).0 (es ++ (advance p later).1) now) (sym (q.2 ∙ v.awake))
        record {
          awake = q.2 ∙ v.awake;
          error = error ∙ v.error;
          last_error =
              q.3 ∙ v.last_error ∙ ap (λ b. if b then now else r.last_error_print_time) (sym error);
          warning = warning ∙ v.warning;
          last_warning =
              q.4
              ∙ v.last_warning
              ∙ ap (λ b. if b then now else r.last_warning_print_time) (sym warning);
        }

  sleep-Prints :
      (r : Rate D) (now later : Timespec)
      → d.eq r.time_step (literal 0) ≡ false
      → let s = sleep r now later in Prints r s.0 s.1 now s.0.awake_time
  unfolding sleep wake
  sleep-Prints r now later h =
      let woken = check_thresholds-Prints (wake r now) in
      let v : Prints r (check_thresholds (wake r now)).0 (check_thresholds (wake r now)).1 now
          (wake r now).awake_time =
        record {
          awake = woken.awake;
          error = woken.error;
          last_error = woken.last_error;
          warning = woken.warning;
          last_warning = woken.last_warning;
        } in
      let u =
        advance-Prints r (check_thresholds (wake r now)).0 (check_thresholds (wake r now)).1 now
          later v in
      rw h u

  error_prints-thinned :
      (r : Rate D) (cs : List Readings)
      → d.eq r.time_step (literal 0) ≡ false
      → error_prints r cs ≡ thinned (is_long D) r.last_error_print_time (error_times r cs)
  unfolding error_prints error_times thinned
  error_prints-thinned r [] h = refl
  error_prints-thinned r (c ∷ cs) h =
      let s = sleep r c.0 c.1 in
      let v = sleep-Prints r c.0 c.1 h in
      keep (over r.options r.max_factor_error s.0.awake_time) (prints_error s.1) c.0
        r.last_error_print_time s.0.last_error_print_time (error_prints s.0 cs) (error_times s.0 cs)
        (is_long D) v.error v.last_error
        (error_prints-thinned s.0 cs (rw (options-sleep r c.0 c.1) h))

  warning_prints-thinned :
      (r : Rate D) (cs : List Readings)
      → d.eq r.time_step (literal 0) ≡ false
      → warning_prints r cs ≡ thinned (is_long D) r.last_warning_print_time (warning_times r cs)
  unfolding warning_prints warning_times thinned
  warning_prints-thinned r [] h = refl
  warning_prints-thinned r (c ∷ cs) h =
      let s = sleep r c.0 c.1 in
      let v = sleep-Prints r c.0 c.1 h in
      keep
        (not (over r.options r.max_factor_error s.0.awake_time)
          && over r.options r.max_factor_warning s.0.awake_time)
        (prints_warning s.1) c.0 r.last_warning_print_time s.0.last_warning_print_time
        (warning_prints s.0 cs) (warning_times s.0 cs) (is_long D) v.warning v.last_warning
        (warning_prints-thinned s.0 cs (rw (options-sleep r c.0 c.1) h))

  -- With a time step other than 0, the calls of `sleep` that print an error are those of the calls over
  -- the threshold for errors that start more than a second after the last that printed one, or after the
  -- point in time that the rate has for it; and likewise the warnings, among the calls over the threshold
  -- for warnings only.
  pub prints_lem :
      (r : Rate D) (cs : List Readings)
      → d.eq r.time_step (literal 0) ≡ false
      → (error_prints r cs ≡ thinned (is_long D) r.last_error_print_time (error_times r cs))
        × (warning_prints r cs ≡ thinned (is_long D) r.last_warning_print_time (warning_times r cs))
  prints_lem r cs h = (error_prints-thinned r cs h, warning_prints-thinned r cs h)
