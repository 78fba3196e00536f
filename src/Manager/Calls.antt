-- ===== src/Manager/Calls.antt =====
-- Any calls of the manager's methods, with turns of the workers' threads between them.
pub mod Entries
mod Loops
use any_node.Base.{
  ℕ, subst, some_inj, ◌≡◌, refl, ap, Bool, true, false, Option, none, some, List, [], ◌∷◌, ◌++◌,
}
use any_node.Base.Int.{ℤ, pos}
use any_node.Base.Dict.{find, put, erase, string_eq}
use any_node.Double.{Double}
use any_node.Rate.Timespec.{Timespec}
use any_node.Worker.{
  Worker, Effect, Input, Outcome, returned, aborted, blocked, ◌>>=◌, Caller, Platform, stop, start,
  destroy, construct, move, set_timestep, turn,
}
use any_node.Worker.Options.{WorkerOptions}
use any_node.Worker.Reach.{Inv, stop-Inv, start-Inv, turn-Inv, Step-Inv, retimes, construct-Inv}
use any_node.Manager.Defs.{
  Manager, Inputs, Client, caller_for, Result, add_worker, add_new, add_to, start_worker,
  start_workers, start_unless_aborted, stop_worker, stop_workers, cancel_worker, cancel_workers,
  cancel, clear, set_worker_timestep, clean_destructible_workers, at_worker, stored,
}
use any_node.Manager.Calls.Entries.{
  IsGood, move-Inv, put-IsGood, erase-IsGood, stored-IsGood, at_worker-IsGood, >>=-returned,
  returned-inj, fst_of,
}
use any_node.Manager.Calls.Loops.{
  stop_workers-IsGood, start_workers-IsGood, clean-IsGood, start_unless_aborted-Inv,
}
use Prim.Native.String.{String}

-- A call of a method, or a turn of the thread of the worker of this name.
pub data Call (D : Type 0) : Type 0 where
  adds : WorkerOptions D → Bool → Timespec → Timespec → Call D
  starts : String → ℤ → Call D
  starts_all : Call D
  stops : String → Bool → Call D
  stops_all : Bool → Call D
  cancels : String → Bool → Call D
  cancels_all : Bool → Call D
  retimes_at : String → D → Call D
  cleans : Call D
  turns_at : String → Input → Call D

module _ {D : Type 0} ⦃d : Double D⦄ ⦃p : Platform⦄ where
  -- One call, by a thread, with what the workers are given while it waits for them.
  unfoldable pub step : Client → Inputs → Manager D → Call D → Result D
  step c inputs m (adds o autostart now moved) = do
    r ← add_worker m o autostart now moved
    returned (r.0, r.2)
  step c inputs m (starts name priority) = start_worker m name priority
  step c inputs m starts_all = start_workers m
  step c inputs m (stops name wait) = stop_worker c m name wait inputs
  step c inputs m (stops_all wait) = stop_workers c m wait inputs
  step c inputs m (cancels name wait) = cancel_worker c m name wait inputs
  step c inputs m (cancels_all wait) = cancel_workers c m wait inputs
  step c inputs m (retimes_at name x) = set_worker_timestep m name x
  step c inputs m cleans = clean_destructible_workers c m inputs
  step c inputs m (turns_at name i) = at_worker m name λ w. stored m name (returned (turn w i))

  unfoldable pub run : Manager D → List (Client × Inputs × Call D) → Result D
  run m [] = returned (m, [])
  run m ((c, inputs, call) ∷ cs) = do
    r ← step c inputs m call
    rest ← run r.0 cs
    returned (rest.0, r.1 ++ rest.1)

  add_new-IsGood :
      (m : Manager D) (name : String) (w : Worker D) (autostart : Bool)
      → Inv w
      → IsGood m
      → (r : Manager D × Bool × List (Effect D)) → add_new m name w autostart ≡ returned r
      → IsGood r.0
  add_new-IsGood m name w false v g r e =
      subst (λ (x : Manager D × Bool × List (Effect D)). IsGood x.0) (returned-inj e)
        (put-IsGood name w m v g)
  add_new-IsGood m name w true v g r e =
      let (s, o, f) = >>=-returned (start w (pos 0)) _ e in
      subst (λ (x : Manager D × Bool × List (Effect D)). IsGood x.0) (returned-inj f)
        (put-IsGood name s.0 m (start-Inv w (pos 0) o v) g)

  add_to-IsGood :
      (found : Option (Worker D)) (m : Manager D) (name : String) (w : Worker D) (autostart : Bool)
      → Inv w
      → IsGood m
      → (r : Manager D × Bool × List (Effect D)) → add_to found m name w autostart ≡ returned r
      → IsGood r.0
  add_to-IsGood none m name w autostart v g r e = add_new-IsGood m name w autostart v g r e
  add_to-IsGood (some x) m name w autostart v g r e =
      subst (λ (x : Manager D × Bool × List (Effect D)). IsGood x.0) (returned-inj e) g

  -- A call on one name, by what it does to the worker.
  one-IsGood :
      (m : Manager D) (name : String) (f : Worker D → Outcome (Worker D × List (Effect D)))
      → ((w : Worker D)
          → Inv w
          → (q : Worker D) (es : List (Effect D)) → f w ≡ returned (q, es)
          → Inv q)
      → IsGood m
      → (q : Manager D) (es : List (Effect D))
      → at_worker m name (λ w. stored m name (f w)) ≡ returned (q, es)
      → IsGood q
  one-IsGood m name f k g q es e =
      at_worker-IsGood m name (λ w. stored m name (f w))
        (λ w v. stored-IsGood m name (f w) (k w v) g) g q es e

  cancel_worker-IsGood :
      (c : Client) (m : Manager D) (name : String) (wait : Bool) (inputs : Inputs)
      → IsGood m
      → (q : Manager D) (es : List (Effect D))
      → cancel_worker c m name wait inputs ≡ returned (q, es)
      → IsGood q
  unfolding cancel_worker
  cancel_worker-IsGood c m name wait inputs g q es e =
      at_worker-IsGood m name _
        (λ w v r fs h.
          let (gs, o, f) = >>=-returned (cancel (caller_for c name) wait w (inputs name)) _ h in
          subst IsGood (ap fst_of (returned-inj f)) (erase-IsGood name m g))
        g q es e

  cancel_workers-empty :
      (c : Client) (m : Manager D) (wait : Bool) (inputs : Inputs) (q : Manager D)
      (es : List (Effect D))
      → cancel_workers c m wait inputs ≡ returned (q, es)
      → [] ≡ q
  unfolding cancel_workers
  cancel_workers-empty c m wait inputs q es e =
      let (r, o, f) = >>=-returned (stop_workers c m wait inputs) _ e in
      let (fs, u, h) = >>=-returned (clear c r.0 inputs) _ f in ap fst_of (returned-inj h)

  -- Every method that returns, called by whatever thread, leaves the manager with distinct names
  -- and each worker in a state that its invariant allows, and so does each turn of a thread.
  pub step-IsGood :
      (c : Client) (inputs : Inputs) (m : Manager D) (call : Call D)
      → IsGood m
      → (q : Manager D) (es : List (Effect D)) → step c inputs m call ≡ returned (q, es)
      → IsGood q
  unfolding step add_worker start_worker stop_worker set_worker_timestep
  step-IsGood c inputs m (adds o autostart now moved) g q es e =
      let fresh = move (construct o now) moved in
      let (r, h, f) = >>=-returned (add_to (find o.name m) m o.name fresh autostart) _ e in
      subst IsGood (ap fst_of (returned-inj f)) (
        add_to-IsGood (find o.name m) m o.name fresh autostart
          (move-Inv _ moved (construct-Inv o now)) g r h)
  step-IsGood c inputs m (starts name priority) g q es e =
      one-IsGood m name _ (λ w v r fs h. start_unless_aborted-Inv w priority v r fs h) g q es e
  step-IsGood c inputs m starts_all g q es e = start_workers-IsGood m g q es e
  step-IsGood c inputs m (stops name wait) g q es e =
      one-IsGood m name _ (λ w v r fs h. stop-Inv (caller_for c name) wait w (inputs name) h v) g q
        es e
  step-IsGood c inputs m (stops_all wait) g q es e = stop_workers-IsGood c m wait inputs g q es e
  step-IsGood c inputs m (cancels name wait) g q es e =
      cancel_worker-IsGood c m name wait inputs g q es e
  step-IsGood c inputs m (cancels_all wait) g q es e =
      subst IsGood (cancel_workers-empty c m wait inputs q es e)
        (record { sound = tt; distinct = tt })
  step-IsGood c inputs m (retimes_at name x) g q es e =
      one-IsGood m name (λ w. returned (set_timestep w x))
        (λ w v r fs h. subst Inv (ap fst_of (returned-inj h)) (Step-Inv (retimes x) v)) g q es e
  step-IsGood c inputs m cleans g q es e = clean-IsGood c m inputs g q es e
  step-IsGood c inputs m (turns_at name i) g q es e =
      one-IsGood m name (λ w. returned (turn w i))
        (λ w v r fs h. subst Inv (ap fst_of (returned-inj h)) (turn-Inv w i v)) g q es e

  run-IsGood' :
      (cs : List (Client × Inputs × Call D)) (m : Manager D)
      → IsGood m
      → (q : Manager D) (es : List (Effect D)) → run m cs ≡ returned (q, es)
      → IsGood q
  unfolding run
  run-IsGood' [] m g q es e = subst IsGood (ap fst_of (returned-inj e)) g
  run-IsGood' ((c, inputs, call) ∷ cs) m g q es e =
      let (r, o, f) = >>=-returned (step c inputs m call) _ e in
      let (rest, u, h) = >>=-returned (run r.0 cs) _ f in
      let last = run-IsGood' cs r.0 (step-IsGood c inputs m call g r.0 r.1 o) rest.0 rest.1 u in
      subst IsGood (ap fst_of (returned-inj h)) last

  -- After any calls of the methods, by whatever threads, and turns of the workers' threads between
  -- them, from a manager that is empty: if all of them return, the names are distinct, and each
  -- worker is in a state that its invariant allows.
  pub run-IsGood :
      (cs : List (Client × Inputs × Call D)) (q : Manager D) (es : List (Effect D))
      → run [] cs ≡ returned (q, es)
      → IsGood q
  run-IsGood cs q es e = run-IsGood' cs [] (record { sound = tt; distinct = tt }) q es e
