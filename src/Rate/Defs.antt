-- ===== src/Rate/Defs.antt =====
-- The class `Rate`. `clock_gettime` and `clock_nanosleep` are the kernel's: each method takes the
-- readings that it would make, in their order, and returns what it asks of the outside.
use any_node.Base.{ℕ, ◌+◌, ◌-◌, ◌%◌, ◌^◌, ◌==◌, leb, Bool, not, if◌then◌else◌, List, [], ◌∷◌, ◌++◌}
use any_node.Double.{Double, literal}
use any_node.Rate.Timespec.{Timespec, zero_time, get_duration, add_duration}
use any_node.Rate.Options.{RateOptions}

pub record Rate (D : Type 0) : Type 0 where
  pub options : RateOptions D
  pub open options use *
  pub sleep_start_time : Timespec
  pub sleep_end_time : Timespec
  pub step_time : Timespec
  pub num_time_steps : ℕ
  pub num_warnings : ℕ
  pub num_errors : ℕ
  pub last_warning_print_time : Timespec
  pub last_error_print_time : Timespec
  pub awake_time : D
  pub awake_time_mean : D
  pub awake_time_m2 : D

-- What `sleep` prints, with the count that the message carries, and what it asks of the kernel.
pub data SleepEffect : Type 0 where
  print_error : ℕ → SleepEffect
  print_warning : ℕ → SleepEffect
  sleep_until : Timespec → SleepEffect

-- `unsigned int`
abbrev pub u32 : ℕ → ℕ
u32 n = n % 2 ^ 32

module _ {D : Type 0} ⦃d : Double D⦄ where
  unfoldable pub reset : Rate D → Timespec → Rate D
  reset r now = record {
    options = r.options;
    sleep_start_time = now;
    sleep_end_time = now;
    step_time = now;
    num_time_steps = 0;
    num_warnings = 0;
    num_errors = 0;
    last_warning_print_time = zero_time;
    last_error_print_time = zero_time;
    awake_time = literal 0;
    awake_time_mean = literal 0;
    awake_time_m2 = literal 0;
  }

  -- The constructor: the members' initialisers, then `reset`.
  unfoldable pub construct : RateOptions D → Timespec → Rate D
  unfolding reset
  construct options now = reset fresh now
    where
      fresh : Rate D
      fresh = record {
        options = options;
        sleep_start_time = zero_time;
        sleep_end_time = zero_time;
        step_time = zero_time;
        num_time_steps = 0;
        num_warnings = 0;
        num_errors = 0;
        last_warning_print_time = zero_time;
        last_error_print_time = zero_time;
        awake_time = literal 0;
        awake_time_mean = literal 0;
        awake_time_m2 = literal 0;
      }

  -- The move constructor takes every member over, and resets.
  unfoldable pub move : Rate D → Timespec → Rate D
  unfolding reset
  move other now = reset other now

  -- sleep(): the first clock reading, the awake time and its running statistics.
  unfoldable pub wake : Rate D → Timespec → Rate D
  wake r now = record r {
    sleep_start_time = now;
    awake_time = awake;
    num_time_steps = steps;
    awake_time_mean = mean;
    awake_time_m2 = d.add r.awake_time_m2 (d.mul delta (d.sub awake mean));
  }
    where
      awake : D
      awake = get_duration r.sleep_end_time now

      steps : ℕ
      steps = u32 (r.num_time_steps + 1)

      delta : D
      delta = d.sub awake r.awake_time_mean

      mean : D
      mean = d.add r.awake_time_mean (d.div delta (literal steps))

  abbrev pub exceeds : Rate D → D → Bool
  exceeds r factor = d.lt (d.mul factor r.time_step) r.awake_time

  abbrev pub printed_long_ago : Rate D → Timespec → Bool
  printed_long_ago r last = d.lt (literal 1) (get_duration last r.sleep_start_time)

  unfoldable pub count_error : Rate D → Rate D × List SleepEffect
  count_error r =
      let n = u32 (r.num_errors + 1) in
      if printed_long_ago r r.last_error_print_time
      then (
        record r { num_errors = n; last_error_print_time = r.sleep_start_time },
        print_error n ∷ [],
      )
      else (record r { num_errors = n }, [])

  unfoldable pub count_warning : Rate D → Rate D × List SleepEffect
  count_warning r =
      let n = u32 (r.num_warnings + 1) in
      if printed_long_ago r r.last_warning_print_time
      then (
        record r { num_warnings = n; last_warning_print_time = r.sleep_start_time },
        print_warning n ∷ [],
      )
      else (record r { num_warnings = n }, [])

  -- sleep(): the awake time against the thresholds.
  unfoldable pub check_thresholds : Rate D → Rate D × List SleepEffect
  unfolding count_error count_warning
  check_thresholds r =
      if exceeds r r.max_factor_error
      then count_error r
      else if exceeds r r.max_factor_warning
      then count_warning r
      else (r, [])

  -- sleep(): the next step time, and the second clock reading against it.
  unfoldable pub advance : Rate D → Timespec → Rate D × List SleepEffect
  advance r later =
      let step = add_duration r.step_time r.time_step in
      let is_behind = d.lt (get_duration later step) (literal 0) in
      if is_behind
      then (
        record r { sleep_end_time = later; step_time = if not r.enforce_rate then later else step },
        [],
      )
      else (record r { sleep_end_time = step; step_time = step }, sleep_until step ∷ [])

  -- The method, with its two clock readings. (The second is not made at a time step of 0.)
  unfoldable pub sleep : Rate D → Timespec → Timespec → Rate D × List SleepEffect
  sleep r now later =
      let woken = wake r now in
      let (checked, prints) = check_thresholds woken in
      let (advanced, sleeps) = advance checked later in
      if d.eq r.time_step (literal 0)
      then (record woken { sleep_end_time = now }, [])
      else (advanced, prints ++ sleeps)

  unfoldable pub get_awake_time : Rate D → D
  get_awake_time r = if r.num_time_steps == 0 then d.quiet_nan else r.awake_time

  unfoldable pub get_awake_time_mean : Rate D → D
  get_awake_time_mean r = if r.num_time_steps == 0 then d.quiet_nan else r.awake_time_mean

  unfoldable pub get_awake_time_var : Rate D → D
  get_awake_time_var r =
      if leb r.num_time_steps 1
      then d.quiet_nan
      else d.div r.awake_time_m2 (literal (r.num_time_steps - 1))

  unfoldable pub get_awake_time_std_dev : Rate D → D
  unfolding get_awake_time_var
  get_awake_time_std_dev r = d.sqrt (get_awake_time_var r)
