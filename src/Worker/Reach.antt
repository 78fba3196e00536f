-- ===== src/Worker/Reach.antt =====
-- The states that a worker reaches by its thread's turns and by the calls of its methods, in any
-- order, and what holds in all of them. A step that aborts the program has no state after it.
use any_node.Base.{
  ℕ, zero, suc, subst, ◌&&◌, [], ◌≡◌, refl, ◌∙◌, arith, ◌⊎◌, inl, inr, Bool, true, false,
  Bool-cases, List,
}
use any_node.Base.Int.{ℤ}
use any_node.Double.{Double}
use any_node.Rate
use any_node.Rate.{Rate}
use any_node.Rate.Timespec.{Timespec}
use any_node.Rate.Schedule.{options-sleep}
use any_node.Worker.Options.{WorkerOptions}
use any_node.Worker.Defs.{
  Worker, Pc, begin, sleeping, exited, Thread, no_thread, thread, joinable, Input, Effect, returned,
  Caller, own_thread, other_thread, Platform, construct, turn_at, turn_of, turn, turns, joined,
  join, stop, start, set_timestep, set_enforce_rate,
}
use any_node.Worker.Stop.{IsSound}

module _ {D : Type 0} ⦃d : Double D⦄ where
  -- The rate's copy of the options agrees with the worker's, but for an infinite time step.
  pub record Agrees (w : Worker D) : Type 0 where
    pub enforced : w.rate.enforce_rate ≡ w.enforce_rate
    pub timed : (w.rate.time_step ≡ w.time_step) ⊎ (d.is_inf w.time_step ≡ true)

  turn_at-IsSound :
      (pc : Pc) (w : Worker D) (i : Input)
      → w.handle ≡ thread pc
      → IsSound w
      → IsSound (turn_at pc w i).0
  unfolding turn_at
  turn_at-IsSound begin w i e v = ground (arith, v.owned)
  turn_at-IsSound exited w i e v = v
  turn_at-IsSound pc w i e v = ground arith

  turn_at-Agrees : (pc : Pc) (w : Worker D) (i : Input) → Agrees w → Agrees (turn_at pc w i).0
  unfolding turn_at Rate.reset
  turn_at-Agrees begin w i v = ground arith
  turn_at-Agrees sleeping w i v = ground (arith, options-sleep w.rate i.now i.later)
  turn_at-Agrees pc w i v = ground arith

  turn_at-running : (pc : Pc) (w : Worker D) (i : Input) → (turn_at pc w i).0.running ≡ w.running
  unfolding turn_at
  turn_at-running begin w i = ground arith
  turn_at-running pc w i = refl

  -- An invariant in two parts: what holds of the flags, and of the options.
  pub record Inv (w : Worker D) : Type 0 where
    pub sound : IsSound w
    pub agrees : Agrees w

  turn_of-Inv :
      (h : Thread) (w : Worker D) (i : Input) → w.handle ≡ h → Inv w → Inv (turn_of h w i).0
  turn_of-Inv no_thread w i e v = v
  turn_of-Inv (thread pc) w i e v = record {
    sound = turn_at-IsSound pc w i e v.sound;
    agrees = turn_at-Agrees pc w i v.agrees;
  }

  pub turn-Inv : (w : Worker D) (i : Input) → Inv w → Inv (turn w i).0
  unfolding turn
  turn-Inv w i v = turn_of-Inv w.handle w i refl v

  turn_of-running : (h : Thread) (w : Worker D) (i : Input) → (turn_of h w i).0.running ≡ w.running
  turn_of-running no_thread w i = refl
  turn_of-running (thread pc) w i = turn_at-running pc w i

  turns-Inv :
      (n : ℕ) (w : Worker D) (inputs : ℕ → Input)
      → Inv w
      → Inv (turns n w inputs).0 × ((turns n w inputs).0.running ≡ w.running)
  unfolding turns turn
  turns-Inv zero w inputs v = (v, refl)
  turns-Inv (suc n) w inputs v =
      let (k, e) =
        turns-Inv n (turn w (inputs 0)).0 (λ j. inputs (suc j)) (turn-Inv w (inputs 0) v) in
      (k, e ∙ turn_of-running w.handle w (inputs 0))

  -- A worker without a thread, told to stop.
  released-Inv : (w : Worker D) → w.running ≡ false → Inv w → Inv (record w { handle = no_thread })
  released-Inv w r v = ground arith

  signalled-Inv : (w : Worker D) → Inv w → Inv (record w { running = false })
  signalled-Inv w v = ground arith

  joined-lem :
      (h : Thread) (w : Worker D) (es : List (Effect D)) {q : Worker D} {fs : List (Effect D)}
      → joined h w es ≡ returned (q, fs)
      → record w { handle = no_thread } ≡ q
  joined-lem h w es e = ground arith

  join-Inv :
      (w : Worker D) (inputs : ℕ → Input) {q : Worker D} {es : List (Effect D)}
      → join w inputs ≡ returned (q, es)
      → w.running ≡ false
      → Inv w
      → Inv q
  unfolding join
  join-Inv w inputs e r v =
      let (k, same) = turns-Inv 6 w inputs v in
      let last = (turns 6 w inputs).0 in
      subst Inv (joined-lem last.handle last (turns 6 w inputs).1 e)
        (released-Inv last (same ∙ r) k)

  pub stop-Inv :
      (who : Caller) (wait : Bool) (w : Worker D) (inputs : ℕ → Input) {q : Worker D}
      {es : List (Effect D)}
      → stop who wait w inputs ≡ returned (q, es)
      → Inv w
      → Inv q
  unfolding stop
  stop-Inv own_thread wait w inputs e v = subst Inv (cc) (signalled-Inv w v)
  stop-Inv other_thread wait w inputs e v = elim (Bool-cases (wait && joinable w.handle)) [
    | inl b ↦ join-Inv (record w { running = false }) inputs (rw b at e) refl (signalled-Inv w v)
    | inr b ↦
        let same : returned (record w { running = false }, []) ≡ returned (_, _) = rw b at e in
        subst Inv (cc same) (signalled-Inv w v)
  ]

  pub construct-Inv : (o : WorkerOptions D) (now : Timespec) → Inv (construct o now)
  unfolding construct Rate.construct
  construct-Inv o now = ground arith

module _ {D : Type 0} ⦃d : Double D⦄ ⦃p : Platform⦄ where
  pub data Step (w : Worker D) : Worker D → Type 0 where
    turns_once : (i : Input) → Step w (turn w i).0
    starts :
        (priority : ℤ) {q : Worker D} {ok : Bool} {es : List (Effect D)}
        → start w priority ≡ returned (q, ok, es)
        → Step w q
    stops :
        (who : Caller) (wait : Bool) (inputs : ℕ → Input) {q : Worker D} {es : List (Effect D)}
        → stop who wait w inputs ≡ returned (q, es)
        → Step w q
    retimes : (x : D) → Step w (set_timestep w x).0
    enforces : (b : Bool) → Step w (set_enforce_rate w b)

  pub data Reach (options : WorkerOptions D) (now : Timespec) : Worker D → Type 0 where
    constructed : Reach options now (construct options now)
    later : {v w : Worker D} → Reach options now v → Step v w → Reach options now w

  pub start-Inv :
      (w : Worker D) (priority : ℤ) {q : Worker D} {ok : Bool} {es : List (Effect D)}
      → start w priority ≡ returned (q, ok, es)
      → Inv w
      → Inv q
  unfolding start
  start-Inv w priority e v = ground arith

  -- Every step keeps the flags and the options consistent.
  pub Step-Inv : {v w : Worker D} → Step v w → Inv v → Inv w
  unfolding start set_timestep set_enforce_rate
  Step-Inv {v} (turns_once i) h = turn-Inv v i h
  Step-Inv {v} (starts priority e) h = start-Inv v priority e h
  Step-Inv {v} (stops who wait inputs e) h = stop-Inv who wait v inputs e h
  Step-Inv {v} (retimes x) h = ground arith
  Step-Inv {v} (enforces b) h = ground arith

  -- After any calls of `start`, `stop`, `setTimestep` and `setEnforceRate` that return, and any turns
  -- of the thread between them: a thread that is out of `run` has set `done_`, a worker that runs has
  -- a thread, and the rate has the worker's `enforceRate_`, and its time step if that is finite.
  pub Reach-Inv : {o : WorkerOptions D} {now : Timespec} {w : Worker D} → Reach o now w → Inv w
  Reach-Inv {o} {now} constructed = construct-Inv o now
  Reach-Inv (later r s) = Step-Inv s (Reach-Inv r)
