-- ===== src/Rate/Examples.antt =====
-- The theorems on rates at a rate of ten steps each second.
use any_node.Base.{ℕ, ◌+◌, ◌<◌, ◌≤◌, ◌≡◌, refl, arith, true, false, List, [], ◌∷◌, ◌++◌}
use any_node.Base.Int.{pos, mod_ℤ, ◌+ℤ◌}
use any_node.Double.Rational.{Rational, frac, rational_double}
use any_node.Rate.Timespec.{Timespec, IsNormal, nanos, get_duration, add_duration}
use any_node.Rate.Timespec.Laws.{rational-KeepsSign}
use any_node.Rate.Options.{RateOptions}
use any_node.Rate.Defs.{Rate, construct, reset, sleep, wake, check_thresholds, advance, u32}
use any_node.Rate.Changes.{Call, Found, unchanged, sleeps_found}
use any_node.Rate.Changes.Drift.{slip, sleeps_found_lem}
use any_node.Rate.Schedule.{Readings, max_ℤ, sleeps}
use any_node.Rate.Messages.{
  prints_warning, is_long, thinned, error_prints, warning_prints, error_times, warning_times,
  prints_lem,
}
use any_node.Rate.Counters.{awake_times, errors_among, warnings_among, counters_lem}

abbrev at : ℕ → ℕ → Timespec
at s n = record { sec = pos s; nsec = pos n }

at-IsNormal : (s n : ℕ) → n < 1_000_000_000 → IsNormal (at s n)
at-IsNormal s n h = record { nonneg = omega arith; below = omega arith }

abbrev tenth : Rational
tenth = frac (pos 1) 9

abbrev options : RateOptions Rational
options = record {
  name = "ten";
  time_step = tenth;
  max_factor_warning = frac (pos 1) 0;
  max_factor_error = frac (pos 10) 0;
  enforce_rate = true;
  clock_id = pos 1;
}

abbrev ten_hertz : Rate Rational
ten_hertz = construct options (at 3 950_000_000)

-- The rate is not enforced, and the time step is doubled before the step time is moved.
abbrev doubled : Found Rational
doubled = record (unchanged options) { next_step = frac (pos 2) 9; is_enforced = false }

abbrev late : Readings
late = (at 4 120_000_000, at 4 130_000_000)

-- A call that ends late and finds the rate not enforced, and one without changes.
sleeps_found_lem_example :
    let b : Call Rational = (doubled, late) in
    let c : Call Rational = (unchanged options, (at 4 250_000_000, at 4 300_000_000)) in
    let s = sleeps_found ten_hertz (b ∷ []) in
    let q = sleeps_found ten_hertz ((b ∷ []) ++ c ∷ []) in
    (nanos q.step_time
      ≡ nanos ten_hertz.step_time
        +ℤ pos 300_000_000
        +ℤ pos (slip (nanos ten_hertz.step_time) ((b ∷ []) ++ c ∷ [])))
    × (nanos q.sleep_end_time
        ≡ max_ℤ (nanos s.step_time +ℤ pos 100_000_000) (nanos (at 4 300_000_000)))
unfolding construct rational_double
sleeps_found_lem_example =
    sleeps_found_lem rational-KeepsSign ((doubled, late) ∷ []) ten_hertz
      (unchanged options, (at 4 250_000_000, at 4 300_000_000))
      (at-IsNormal 3 950_000_000 (omega arith))
      (
        record {
          nonzero = refl;
          next_nonzero = refl;
          forward = ground arith;
          normal = at-IsNormal 4 130_000_000 (omega arith);
        },
        tt,
      )
      record {
        nonzero = refl;
        next_nonzero = refl;
        forward = ground arith;
        normal = at-IsNormal 4 300_000_000 (omega arith);
      }

counters_lem_example :
    let q = sleeps (reset ten_hertz (at 3 0)) (late ∷ late ∷ []) in
    let xs = awake_times (reset ten_hertz (at 3 0)) (late ∷ late ∷ []) in
    (q.num_time_steps ≡ u32 2)
    × (q.num_errors ≡ u32 (errors_among ten_hertz.options xs))
    × (q.num_warnings ≡ u32 (warnings_among ten_hertz.options xs))
    × (errors_among ten_hertz.options xs + warnings_among ten_hertz.options xs ≤ 2)
unfolding construct rational_double
counters_lem_example = counters_lem ten_hertz (at 3 0) (late ∷ late ∷ []) refl

-- Three calls that are late, in less than a second.
abbrev thrice : List Readings
thrice = late ∷ (at 4 250_000_000, at 4 260_000_000) ∷ (at 5 0, at 5 10_000_000) ∷ []

prints_lem_example :
    (error_prints ten_hertz thrice
      ≡ thinned (is_long Rational) ten_hertz.last_error_print_time (error_times ten_hertz thrice))
    × (warning_prints ten_hertz thrice
        ≡ thinned
            (is_long Rational)
            ten_hertz.last_warning_print_time
            (warning_times ten_hertz thrice))
unfolding construct rational_double
prints_lem_example = prints_lem ten_hertz thrice refl

printed_once : warning_prints ten_hertz thrice ≡ at 4 120_000_000 ∷ []
unfolding warning_prints prints_warning sleep wake check_thresholds advance construct
    rational_double get_duration add_duration mod_ℤ
printed_once = refl
