-- ===== src/Manager/Order/Steps.antt =====
-- Each call of the manager's methods, over another order of the same entries.
use any_node.Base.{
  ◌≡◌, refl, ap, subst, ◌∙◌, Bool, true, false, Option, none, some, List, [], ◌∷◌, ◌++◌,
}
use any_node.Base.Int.{pos}
use any_node.Base.Dict.{find, put, erase, string_eq}
use any_node.Double.{Double}
use any_node.Worker.{
  Worker, Effect, returned, ◌>>=◌, Platform, stop, start, move, construct, set_timestep, turn,
}
use any_node.Manager.Defs.{
  Manager, add_worker, start_worker, stop_worker, cancel_worker, cancel_workers,
  set_worker_timestep, Client, Inputs, caller_for, stop_workers, start_workers,
  start_unless_aborted, clear, cancel, add_new, add_to,
}
use any_node.Manager.Lookup.{AreDistinct}
use any_node.Manager.Calls.{
  Call, adds, starts, starts_all, stops, stops_all, cancels, cancels_all, retimes_at, cleans,
  turns_at, step, run, step-IsGood,
}
use any_node.Manager.Calls.Entries.{IsGood, >>=-returned, returned-inj, returned-fst}
use any_node.Manager.Order.{SameEntries, contents, exact}
use any_node.Manager.Order.Loops.{each, each-SameEntries}
use any_node.Manager.Order.Ends.{clean-SameEntries, clear-SameEntries}
use mathlib.Core.Quot
use Prim.Native.String.{String}
use any_node.Manager.Order.Named.{
  Agrees, put-SameEntries, erase-SameEntries, at_worker-Agrees, one-Agrees,
}

module _ {D : Type 0} ⦃d : Double D⦄ where
  stop_workers-each :
      (c : Client) (wait : Bool) (inputs : Inputs) (m : Manager D)
      → stop_workers c m wait inputs
        ≡ each (λ name w. stop (caller_for c name) wait w (inputs name)) m
  unfolding each stop_workers
  stop_workers-each c wait inputs [] = refl
  stop_workers-each c wait inputs ((name, w) ∷ m) = simp (stop_workers-each c wait inputs m)

module _ {D : Type 0} ⦃d : Double D⦄ ⦃p : Platform⦄ where
  start_workers-each :
      (m : Manager D) → start_workers m ≡ each (λ name w. start_unless_aborted w (pos 0)) m
  unfolding each start_workers
  start_workers-each [] = refl
  start_workers-each ((name, w) ∷ m) = simp (start_workers-each m)

  stop_workers-Agrees :
      (c : Client) (wait : Bool) (inputs : Inputs) (m n : Manager D)
      → AreDistinct n
      → SameEntries m n
      → Agrees (stop_workers c m wait inputs) (stop_workers c n wait inputs)
  stop_workers-Agrees c wait inputs m n v s =
      rw (stop_workers-each c wait inputs m, stop_workers-each c wait inputs n)
        (λ q es e. each-SameEntries _ m n q es v s e)

  cancel_worker-Agrees :
      (c : Client) (name : String) (wait : Bool) (inputs : Inputs) (m n : Manager D)
      → SameEntries m n
      → Agrees (cancel_worker c m name wait inputs) (cancel_worker c n name wait inputs)
  unfolding cancel_worker
  cancel_worker-Agrees c name wait inputs m n s = at_worker-Agrees m n name _ _ s λ w q es e.
      let (fs, g, h) = >>=-returned (cancel (caller_for c name) wait w (inputs name)) _ e in
      (
        erase name n,
        fs,
        rw g,
        subst (λ k. SameEntries k (erase name n)) (returned-fst h) (erase-SameEntries name m n s),
      )

  cancel_workers-Agrees :
      (c : Client) (wait : Bool) (inputs : Inputs) (m n : Manager D)
      → IsGood n
      → SameEntries m n
      → Agrees (cancel_workers c m wait inputs) (cancel_workers c n wait inputs)
  unfolding cancel_workers step
  cancel_workers-Agrees c wait inputs m n h s q es e =
      let (x, g, f) = >>=-returned (stop_workers c m wait inputs) _ e in
      let (fs, k, l) = >>=-returned (clear c x.0 inputs) _ f in
      let (y, gs, a, t) = stop_workers-Agrees c wait inputs m n h.distinct s x.0 x.1 g in
      let good = step-IsGood c inputs n (stops_all wait) h y gs a in
      let (hs, b) = clear-SameEntries c inputs x.0 y fs good.distinct t k in
      ([], gs ++ hs, rw (a, b), subst (λ z. SameEntries z []) (returned-fst l) (λ name. refl))

  add_to-Agrees :
      (o : Option (Worker D)) (m n : Manager D) (name : String) (w : Worker D) (autostart : Bool)
      → SameEntries m n
      → Agrees
          (add_to o m name w autostart >>= λ r. returned (r.0, r.2))
          (add_to o n name w autostart >>= λ r. returned (r.0, r.2))
  add_to-Agrees (some x) m n name w autostart s q es e =
      (n, [], refl, subst (λ k. SameEntries k n) (returned-fst e) s)
  add_to-Agrees none m n name w false s q es e = (
    put name w n,
    [],
    refl,
    subst (λ k. SameEntries k (put name w n)) (returned-fst e) (put-SameEntries name w m n s),
  )
  add_to-Agrees none m n name w true s q es e =
      let (r, g, h) = >>=-returned (add_new m name w true) _ e in
      let (x, k, l) = >>=-returned (start w (pos 0)) _ g in
      (
        put name x.0 n,
        x.2,
        rw k,
        subst (λ z. SameEntries z (put name x.0 n))
            (ap (λ (y : Manager D × Bool × List (Effect D)). y.0) (returned-inj l) ∙ returned-fst h)
            (put-SameEntries name x.0 m n s),
      )

  step-Agrees :
      (c : Client) (inputs : Inputs) (call : Call D) (m n : Manager D)
      → IsGood m
      → IsGood n
      → SameEntries m n
      → Agrees (step c inputs m call) (step c inputs n call)
  unfolding step add_worker start_worker stop_worker cancel_worker set_worker_timestep
      cancel_workers
  step-Agrees c inputs (adds o autostart now moved) m n g h s =
      let fresh = move (construct o now) moved in
      subst
        (λ x.
          Agrees (add_to (find o.name m) m o.name fresh autostart >>= λ r. returned (r.0, r.2))
            (add_to x n o.name fresh autostart >>= λ r. returned (r.0, r.2)))
        (s o.name) (add_to-Agrees (find o.name m) m n o.name fresh autostart s)
  step-Agrees c inputs (starts name priority) m n g h s = one-Agrees m n name _ s
  step-Agrees c inputs starts_all m n g h s =
      rw (start_workers-each m, start_workers-each n)
        (λ q es e. each-SameEntries _ m n q es h.distinct s e)
  step-Agrees c inputs (stops name wait) m n g h s = one-Agrees m n name _ s
  step-Agrees c inputs (stops_all wait) m n g h s =
      stop_workers-Agrees c wait inputs m n h.distinct s
  step-Agrees c inputs (cancels name wait) m n g h s = cancel_worker-Agrees c name wait inputs m n s
  step-Agrees c inputs (cancels_all wait) m n g h s = cancel_workers-Agrees c wait inputs m n h s
  step-Agrees c inputs (retimes_at name x) m n g h s =
      one-Agrees m n name (λ w. returned (set_timestep w x)) s
  step-Agrees c inputs cleans m n g h s =
      λ q es e. clean-SameEntries c inputs m n q es g.distinct h.distinct s e
  step-Agrees c inputs (turns_at name i) m n g h s =
      one-Agrees m n name (λ w. returned (turn w i)) s

  run-Agrees :
      (cs : List (Client × Inputs × Call D)) (m n : Manager D)
      → IsGood m
      → IsGood n
      → SameEntries m n
      → Agrees (run m cs) (run n cs)
  unfolding run
  run-Agrees [] m n g h s q es e = (n, [], refl, subst (λ k. SameEntries k n) (returned-fst e) s)
  run-Agrees ((c, inputs, call) ∷ cs) m n g h s q es e =
      let (x, k, f) = >>=-returned (step c inputs m call) _ e in
      let (last, l, o) = >>=-returned (run x.0 cs) _ f in
      let (y, fs, a, t) = step-Agrees c inputs call m n g h s x.0 x.1 k in
      let (r, gs, b, u) =
        run-Agrees cs x.0 y (step-IsGood c inputs m call g x.0 x.1 k)
          (step-IsGood c inputs n call h y fs a) t last.0 last.1 l in
      (r, fs ++ gs, rw (a, b), subst (λ z. SameEntries z r) (returned-fst o) u)

  -- For doubles that are a set, and two managers in states that the invariant allows, with the same
  -- workers under the same names in different orders of the map: if calls of the methods by whatever
  -- threads, with turns of the workers' threads between them, all return in one order, then they all
  -- return in the other, and the same workers are left under the same names.
  pub order_lem :
      (set : IsSet D) (cs : List (Client × Inputs × Call D)) (m n q : Manager D)
      (es : List (Effect D))
      → IsGood m
      → IsGood n
      → contents m ≡ contents n
      → run m cs ≡ returned (q, es)
      → (r : Manager D) × (fs : List (Effect D)) × (run n cs ≡ returned (r, fs))
        × (contents q ≡ contents r)
  order_lem set cs m n q es g h s e =
      let (r, fs, a, t) = run-Agrees cs m n g h (exact set m n s) q es e in (r, fs, a, Quot.sound t)
