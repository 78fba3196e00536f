-- ===== src/Worker/Restart.antt =====
-- What `stop` leaves for the next `start` and for the destructor, by caller and by `wait`.
use any_node.Base.{
  ℕ, ◌≤◌, ◌≡◌, refl, ◌∙◌, ap, arith, ◌⊎◌, inl, inr, Bool, true, false, Bool-cases, List, [], ◌∷◌,
  ◌++◌,
}
use any_node.Base.Int.{ℤ}
use any_node.Double.{Double, literal}
use any_node.Worker.Options.{WorkerOptions}
use any_node.Worker.Defs.{
  Worker, begin, thread, joinable, Input, Effect, log, already_running, invalid_timestep, started,
  returned, aborted, Caller, own_thread, other_thread, Platform, stop, start, destroy, schedule,
  is_destructible,
}
use any_node.Rate.Timespec.{Timespec}
use any_node.Worker.Stop.{Waited, stop_waits, calls}
use any_node.Worker.Reach.{Reach, Reach-Inv}

module _ {D : Type 0} ⦃d : Double D⦄ ⦃p : Platform⦄ where
  -- In every reachable state `stop(true)`, called by another thread, returns: the thread has run to
  -- its end, with at most one more call of the callback, and is joined; `running_` is false, the
  -- options are as they were, and if there was a thread, `done_` is set.
  pub stop_returns :
      {o : WorkerOptions D} {now : Timespec} (w : Worker D) (inputs : ℕ → Input)
      → Reach o now w
      → (q : Worker D) × (es : List (Effect D)) × (stop other_thread true w inputs
          ≡ returned (q, es))
        × Waited w q es
  stop_returns w inputs reached = stop_waits w inputs (Reach-Inv reached).sound

  start_idle :
      (w : Worker D) (priority : ℤ)
      → w.running ≡ false
      → joinable w.handle ≡ false
      → d.lt w.time_step (literal 0) ≡ false
      → start w priority
        ≡ returned (
          record w { running = true; done = false; handle = thread begin },
          true,
          schedule w priority ++ log started ∷ [],
        )
  unfolding start
  start_idle w priority r j t = rw (r, t, j)

  -- In every reachable state: after a `stop(true)` by another thread, `start` succeeds whenever the time step is not
  -- negative: the worker runs a new thread from the head of `run`.
  start-stop :
      {o : WorkerOptions D} {now : Timespec} (w : Worker D) (inputs : ℕ → Input) (priority : ℤ)
      → Reach o now w
      → d.lt w.time_step (literal 0) ≡ false
      → (q : Worker D) × (es : List (Effect D)) × (stop other_thread true w inputs
          ≡ returned (q, es))
        × (start q priority
            ≡ returned (
              record q { running = true; done = false; handle = thread begin },
              true,
              schedule q priority ++ log started ∷ [],
            ))
  start-stop w inputs priority reached t =
      let (q, es, e, k) = stop_waits w inputs (Reach-Inv reached).sound in
      let same = ap (λ (o : WorkerOptions D). d.lt o.time_step (literal 0)) k.options in
      (q, es, e, start_idle q priority k.running (ap joinable k.handle) (same ∙ t))

  -- After a `stop` that did not wait, because the caller said so or is the worker's own thread,
  -- `start` terminates the program, for every worker that has a thread and no negative time step.
  pub start_aborts :
      (w : Worker D) (who : Caller) (wait : Bool) (inputs : ℕ → Input) (priority : ℤ)
      → (who ≡ own_thread) ⊎ (wait ≡ false)
      → joinable w.handle ≡ true
      → d.lt w.time_step (literal 0) ≡ false
      → (q : Worker D) × (stop who wait w inputs ≡ returned (q, [])) × (start q priority ≡ aborted)
  unfolding stop start
  start_aborts w who wait inputs priority c j t =
      (record w { running = false }, ground arith, ground arith)

  -- A refused `start` leaves the thread alone, yet marks the worker as done: a worker that runs
  -- and is to be destructed when done is destructible from then on.
  start_refused :
      (w : Worker D) (priority : ℤ)
      → (w.running ≡ true) ⊎ (d.lt w.time_step (literal 0) ≡ true)
      → (q : Worker D) × (es : List (Effect D)) × (start w priority ≡ returned (q, false, es))
        × (q.handle ≡ w.handle)
        × (q.running ≡ w.running)
        × (is_destructible q ≡ w.destruct_when_done)
  unfolding start is_destructible
  start_refused w priority (inl r) =
      (record w { done = true }, log already_running ∷ [], rw r, refl, refl, refl)
  start_refused w priority (inr t) = elim (Bool-cases w.running) [
    | inl r ↦ (record w { done = true }, log already_running ∷ [], rw r, refl, refl, refl)
    | inr r ↦ (record w { done = true }, log invalid_timestep ∷ [], rw (r, t), refl, refl, refl)
  ]

  -- In every reachable state: the destructor terminates the program if the worker's own thread runs it, and otherwise waits
  -- for the thread, with at most one more call of the callback.
  pub destroy_lem :
      {o : WorkerOptions D} {now : Timespec} (w : Worker D) (inputs : ℕ → Input)
      → Reach o now w
      → joinable w.handle ≡ true
      → (destroy own_thread w inputs ≡ aborted)
        × ((es : List (Effect D)) × (destroy other_thread w inputs ≡ returned es) × (calls es ≤ 1))
  unfolding destroy stop
  destroy_lem w inputs reached j =
      let (q, es, e, k) = stop_waits w inputs (Reach-Inv reached).sound in
      (rw j, (es, rw (e, ap joinable k.handle), k.budget))
