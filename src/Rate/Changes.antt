-- ===== src/Rate/Changes.antt =====
-- `Rate::sleep` while other threads change the rate's options, which are atomic: each read of an option
-- finds the value of that moment.
pub mod Drift
use any_node.Base.{
  ℕ, suc, ◌+◌, ◌≡◌, sym, subst, ◌∙◌, ap, refl, arith, Bool, true, false, if◌then◌else◌, List, [],
  ◌∷◌, ◌++◌, All,
}
use any_node.Base.Int.{ℤ, pos, ◌+ℤ◌, ◌-ℤ◌, ◌≤ℤ◌, ltb_ℤ, pos_part, int_laws}
use any_node.Double.{Double, literal}
use any_node.Rate.Timespec.{Timespec, IsNormal, nanos, duration_nanos, KeepsSign}
use any_node.Rate.Options.{RateOptions}
use any_node.Rate.Defs.{
  Rate, SleepEffect, sleep, wake, check_thresholds, count_error, count_warning, advance,
}
use any_node.Rate.Schedule.{Readings, max_ℤ, IsTimed, check_thresholds_keeps, advance-Follows}

-- What the reads of one call find, in their order.
pub record Found (D : Type 0) : Type 0 where
  pub used_step : D  -- the time step against 0
  pub error_factor : D
  pub error_step : D
  pub warning_factor : D
  pub warning_step : D
  pub next_step : D  -- the time step that the step time is moved by
  pub is_enforced : Bool

-- The reads if no thread changes anything meanwhile.
abbrev pub unchanged : {D : Type 0} → RateOptions D → Found D
unchanged o = record {
  used_step = o.time_step;
  error_factor = o.max_factor_error;
  error_step = o.time_step;
  warning_factor = o.max_factor_warning;
  warning_step = o.time_step;
  next_step = o.time_step;
  is_enforced = o.enforce_rate;
}

-- A call: what its reads find, and its clock readings.
abbrev pub Call : Type 0 → Type 0
Call D = Found D × Readings

module _ {D : Type 0} ⦃d : Double D⦄ where
  unfoldable pub check_found : Rate D → Found D → Rate D × List SleepEffect
  check_found r f =
      if d.lt (d.mul f.error_factor f.error_step) r.awake_time
      then count_error r
      else if d.lt (d.mul f.warning_factor f.warning_step) r.awake_time
      then count_warning r
      else (r, [])

  -- The options that `advance` reads, put into the rate; it keeps its own.
  unfoldable pub advance_found : Rate D → Found D → Timespec → Rate D × List SleepEffect
  advance_found r f later =
      let found = record r.options { time_step = f.next_step; enforce_rate = f.is_enforced } in
      let (q, es) = advance (record r { options = found }) later in
      (record q { options = r.options }, es)

  unfoldable pub sleep_found : Rate D → Call D → Rate D × List SleepEffect
  sleep_found r (f, (now, later)) =
      let woken = wake r now in
      let (checked, prints) = check_found woken f in
      let (advanced, sleeps) = advance_found checked f later in
      if d.eq f.used_step (literal 0)
      then (record woken { sleep_end_time = now }, [])
      else (advanced, prints ++ sleeps)

  advance-unchanged :
      (r : Rate D) (later : Timespec)
      → advance_found r (unchanged r.options) later ≡ advance r later
  unfolding advance_found advance
  advance-unchanged r later = ground arith

  advance_as :
      (r q : Rate D) (later : Timespec)
      → q.options ≡ r.options
      → advance_found q (unchanged r.options) later ≡ advance q later
  advance_as r q later h =
      ap (λ o. advance_found q (unchanged o) later) (sym h) ∙ advance-unchanged q later

  check-unchanged : (r : Rate D) → check_found r (unchanged r.options) ≡ check_thresholds r
  unfolding check_found check_thresholds
  check-unchanged r = refl

  pub sleep-unchanged :
      (r : Rate D) (now later : Timespec)
      → sleep_found r (unchanged r.options, (now, later)) ≡ sleep r now later
  unfolding sleep_found sleep wake
  sleep-unchanged r now later =
      let woken = wake r now in
      rw (check-unchanged woken)
        (rw (advance_as r (check_thresholds woken).0 later (check_thresholds_keeps woken).0) refl)

  -- `sleep`, called once for each entry.
  unfoldable pub sleeps_found : Rate D → List (Call D) → Rate D
  sleeps_found r [] = r
  sleeps_found r (c ∷ cs) = sleeps_found (sleep_found r c).0 cs
