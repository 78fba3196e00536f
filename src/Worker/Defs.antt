-- ===== src/Worker/Defs.antt =====
-- The class `Worker`, and its thread as a machine that takes one turn at a time.
use any_node.Base.{ℕ, zero, suc, Bool, true, false, ◌&&◌, if◌then◌else◌, List, [], ◌∷◌, ◌++◌, map}
use any_node.Base.Int.{ℤ, pos, negsuc, ltb_ℤ, eqb_ℤ}
use any_node.Double.{Double, literal}
use any_node.Rate.Timespec.{Timespec}
use any_node.Rate
use any_node.Rate.{Rate, SleepEffect}
use any_node.Worker.Options.{WorkerOptions, WorkerEvent}

-- Where the thread stands in `Worker::run`.
pub data Pc : Type 0 where
  begin : Pc  -- before `if (std::isinf(..))`
  once : Pc  -- in the only call of the callback
  repeat : Pc  -- head of the `do` loop
  calling : Pc  -- in a call of the callback
  sleeping : Pc  -- before `rate_.sleep()`
  testing : Pc  -- before `while (running_)`
  ending : Pc  -- before `done_ = true`
  exited : Pc

-- `thread_`: a handle that owns no thread, or one that is joinable.
pub data Thread : Type 0 where
  no_thread : Thread
  thread : Pc → Thread

pub record Worker (D : Type 0) : Type 0 where
  pub options : WorkerOptions D
  pub open options use *
  pub running : Bool
  pub done : Bool
  pub handle : Thread
  pub rate : Rate D

pub data Log : Type 0 where
  already_running invalid_timestep affinity_too_high started : Log
  timestep_refused callback_failed terminated : Log

-- What a worker does to the outside.
pub data Effect (D : Type 0) : Type 0 where
  call : ℕ → WorkerEvent D → Effect D
  react : ℕ → Effect D
  rate : SleepEffect → Effect D
  log : Log → Effect D
  set_priority : ℤ → Effect D
  set_affinity : ℤ → Effect D

-- A call returns, or ends in `std::terminate`, or waits for ever.
pub data Outcome {ℓ} (A : Type ℓ) : Type ℓ where
  returned : A → Outcome A
  aborted : Outcome A
  blocked : Outcome A

infixl 5 ◌>>=◌
abbrev pub ◌>>=◌ {ℓ κ} : {A : Type ℓ} {B : Type κ} → Outcome A → (A → Outcome B) → Outcome B
returned a >>= f = f a
aborted >>= f = aborted
blocked >>= f = blocked

-- Who calls: the worker's own thread, from inside its callback, or another.
pub data Caller : Type 0 where
  own_thread other_thread : Caller

-- `CPU_SETSIZE` of <sched.h>.
pub record Platform : Type 0 where
  pub cpu_setsize : ℤ

-- What the outside gives to one turn of the thread: the callback's result, the clock's readings.
pub record Input : Type 0 where
  pub verdict : Bool
  pub now : Timespec
  pub later : Timespec

abbrev pub joinable : Thread → Bool
joinable no_thread = false
joinable (thread p) = true

module _ {D : Type 0} ⦃d : Double D⦄ where
  unfoldable pub construct : WorkerOptions D → Timespec → Worker D
  construct options now = record {
    options = options;
    running = false;
    done = false;
    handle = no_thread;
    rate = Rate.construct options.rate_options now;
  }

  -- The move constructor. (A thread that runs keeps using the old object; see `WorkerManager`.)
  unfoldable pub move : Worker D → Timespec → Worker D
  move other now = record other { rate = Rate.move other.rate now }

  abbrev pub failed : Worker D → Bool → List (Effect D)
  failed w verdict =
      if verdict then [] else log callback_failed ∷ react w.callback_failure_reaction ∷ []

  abbrev pub event_at : Worker D → Timespec → Effect D
  event_at w t = call w.callback (record { time_step = w.time_step; time_stamp = t })

  -- One turn of the thread, from where it stands in `run`.
  unfoldable pub turn_at : Pc → Worker D → Input → Worker D × List (Effect D)
  turn_at begin w i =
      if d.is_inf w.time_step
      then (record w { handle = thread once }, event_at w i.now ∷ [])
      else (record w { handle = thread repeat; rate = Rate.reset w.rate i.now }, [])
  turn_at once w i = (record w { handle = thread ending }, failed w i.verdict)
  turn_at repeat w i = (record w { handle = thread calling }, event_at w w.rate.sleep_end_time ∷ [])
  turn_at calling w i = (record w { handle = thread sleeping }, failed w i.verdict)
  turn_at sleeping w i =
      let (rested, effects) = Rate.sleep w.rate i.now i.later in
      (record w { handle = thread testing; rate = rested }, map rate effects)
  turn_at testing w i = (record w { handle = thread (if w.running then repeat else ending) }, [])
  turn_at ending w i = (record w { handle = thread exited; done = true }, log terminated ∷ [])
  turn_at exited w i = (w, [])

  abbrev pub turn_of : Thread → Worker D → Input → Worker D × List (Effect D)
  turn_of no_thread w i = (w, [])
  turn_of (thread p) w i = turn_at p w i

  unfoldable pub turn : Worker D → Input → Worker D × List (Effect D)
  turn w i = turn_of w.handle w i

  -- `n` turns.
  unfoldable pub turns : ℕ → Worker D → (ℕ → Input) → Worker D × List (Effect D)
  turns zero w inputs = (w, [])
  turns (suc n) w inputs =
      let (w', es) = turn w (inputs 0) in
      let (w'', fs) = turns n w' (λ k. inputs (suc k)) in (w'', es ++ fs)

  abbrev pub joined : Thread → Worker D → List (Effect D) → Outcome (Worker D × List (Effect D))
  joined (thread exited) w es = returned (record w { handle = no_thread }, es)
  joined _ w es = blocked

  -- `thread_.join()`: the thread takes turns until it is out of `run`. Only `stop` joins, and six
  -- turns are enough once `running_` is false (`Stop.stop_waits`).
  unfoldable pub join : Worker D → (ℕ → Input) → Outcome (Worker D × List (Effect D))
  join w inputs = let (w', es) = turns 6 w inputs in joined w'.handle w' es

  unfoldable pub stop :
      Caller → Bool → Worker D → (ℕ → Input) → Outcome (Worker D × List (Effect D))
  stop own_thread wait w inputs = returned (record w { running = false }, [])
  stop other_thread wait w inputs =
      let stopped = record w { running = false } in
      if wait && joinable w.handle then join stopped inputs else returned (stopped, [])

  -- The destructor: `stop(true)`, then the members', of which `~thread` terminates the program if
  -- it is joinable.
  unfoldable pub destroy : Caller → Worker D → (ℕ → Input) → Outcome (List (Effect D))
  destroy who w inputs = do
    stopped ← stop who true w inputs
    if joinable stopped.0.handle then aborted else returned stopped.1

  -- start(): the priority and the affinity of the new thread.
  unfoldable pub schedule : ⦃p : Platform⦄ → Worker D → ℤ → List (Effect D)
  schedule ⦃p⦄ w priority =
      (if eqb_ℤ chosen (pos 0) then [] else set_priority chosen ∷ []) ++ affinity
    where
      chosen : ℤ
      chosen = if eqb_ℤ priority (pos 0) then w.default_priority else priority

      affinity : List (Effect D)
      affinity =
          if eqb_ℤ w.sched_affinity (negsuc 0)
          then []
          else if ltb_ℤ w.sched_affinity p.cpu_setsize
          then set_affinity w.sched_affinity ∷ []
          else log affinity_too_high ∷ []

  -- The move assignment to `thread_` terminates the program if `thread_` is joinable.
  unfoldable pub start : ⦃p : Platform⦄ → Worker D → ℤ → Outcome (Worker D × Bool × List (Effect D))
  start w priority =
      if w.running
      then returned (record w { done = true }, false, log already_running ∷ [])
      else if d.lt w.time_step (literal 0)
      then returned (record w { done = true }, false, log invalid_timestep ∷ [])
      else if joinable w.handle
      then aborted
      else returned (
        record w { running = true; done = false; handle = thread begin },
        true,
        schedule w priority ++ log started ∷ [],
      )

  unfoldable pub set_timestep : Worker D → D → Worker D × List (Effect D)
  set_timestep w x =
      if d.le x (literal 0)
      then (w, log timestep_refused ∷ [])
      else if d.is_inf x
      then (record w { options = options }, [])
      else (record w { options = options; rate = rate }, [])
    where
      options : WorkerOptions D
      options = record w.options { rate_options = record w.options.rate_options { time_step = x } }

      rate : Rate D
      rate = record w.rate { options = record w.rate.options { time_step = x } }

  unfoldable pub set_enforce_rate : Worker D → Bool → Worker D
  set_enforce_rate w b = record w {
    options = record w.options {
      rate_options = record w.options.rate_options { enforce_rate = b };
    };
    rate = record w.rate { options = record w.rate.options { enforce_rate = b } };
  }

  unfoldable pub is_destructible : Worker D → Bool
  is_destructible w = w.done && w.destruct_when_done
