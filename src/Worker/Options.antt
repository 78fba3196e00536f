-- ===== src/Worker/Options.antt =====
-- any_worker/include/any_worker/WorkerOptions.hpp and any_worker/include/any_worker/WorkerEvent.hpp.
use any_node.Base.{ℕ, Bool, false}
use any_node.Base.Int.{ℤ}
use any_node.Double.{Double, literal}
use any_node.Rate.Timespec.{Timespec, zero_time}
use any_node.Rate.Options.{RateOptions, rate_options}
use Prim.Native.String.{String}

-- What the callback is given.
pub record WorkerEvent (D : Type 0) : Type 0 where
  pub time_step : D
  pub time_stamp : Timespec

-- The two functions are the user's: a number names each, and each call's result is an input.
pub record WorkerOptions (D : Type 0) : Type 0 where
  pub rate_options : RateOptions D
  pub open rate_options use *
  pub callback : ℕ
  pub callback_failure_reaction : ℕ
  pub default_priority : ℤ
  pub destruct_when_done : Bool
  pub sched_affinity : ℤ

-- The empty function, `[]() {}`.
abbrev pub no_reaction : ℕ
no_reaction = 0

module _ {D : Type 0} ⦃d : Double D⦄ where
  -- `WorkerEvent()`.
  pub no_event : WorkerEvent D
  no_event = record { time_step = literal 0; time_stamp = zero_time }

  -- The constructor with a failure reaction; the one without it passes `no_reaction`.
  unfoldable pub worker_options : String → D → ℕ → ℕ → ℤ → ℤ → WorkerOptions D
  unfolding rate_options
  worker_options name time_step callback reaction priority affinity = record {
    rate_options = rate_options name time_step;
    callback = callback;
    callback_failure_reaction = reaction;
    default_priority = priority;
    destruct_when_done = false;
    sched_affinity = affinity;
  }
