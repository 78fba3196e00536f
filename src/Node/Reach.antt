-- ===== src/Node/Reach.antt =====
-- The states that a system reaches: the manager's invariant, and the phases of `execute`.
use any_node.Base.{
  ◌≡◌, refl, sym, ◌∙◌, ap, subst, Bool, true, List, [], ◌∷◌, map, none, Bool-cases, inl, inr,
}
use any_node.Base.Int.{pos}
use any_node.Double.{Double}
use any_node.Worker.{Input, Outcome, returned, ◌>>=◌, Platform}
use any_node.Worker as Worker
use any_node.Worker.Options.{worker_options, no_reaction}
use any_node.Manager.{add_callback, Manager, Inputs, Client}
use any_node.Manager.Calls as Manager
use any_node.Manager.Calls.{step-IsGood}
use any_node.Manager.Calls.Entries.{IsGood, >>=-returned, returned-inj, fst_of}
use any_node.Nodewrap as Nodewrap
use any_node.Nodewrap.{
  Effect, start_spinner, init_node, pre_cleanup, stop_all_workers as stops_workers, stop_spinner,
  cleanup_node,
}
use any_node.Signal.{Handler, Signals}
use any_node.Node.Defs.{
  add_worker, add_options, start_worker, stop_worker, cancel_worker, stop_all_workers,
}
use any_node.Node.System.{
  Call, adds, adds_options, starts, stops, cancels, stops_all, turns, Event, worker, System, Op,
  wraps, calls, construct, perform, perform_all, call, step, run,
}

-- The parts of the steps that are about `execute`.
abbrev pub wrap_ops : {D : Type 0} → List (Op D) → List Nodewrap.Op
wrap_ops [] = []
wrap_ops (wraps inputs o ∷ os) = o ∷ wrap_ops os
wrap_ops (calls c inputs x ∷ os) = wrap_ops os

module _ {D : Type 0} ⦃d : Double D⦄ ⦃p : Platform⦄ where
  -- The manager's method that a call comes down to.
  abbrev as_manager : Call D → Manager.Call D
  as_manager (adds name x callback priority affinity now moved) =
      Manager.adds (worker_options name x callback no_reaction priority affinity) true now moved
  as_manager (adds_options options now moved) = Manager.adds options true now moved
  as_manager (starts name) = Manager.starts name (pos 0)
  as_manager (stops name wait) = Manager.stops name wait
  as_manager (cancels name wait) = Manager.cancels name wait
  as_manager (stops_all wait) = Manager.cancels_all wait
  as_manager (turns name i) = Manager.turns_at name i

  call-step :
      (c : Client) (inputs : Inputs) (m : Manager D) (x : Call D)
      → call c inputs m x ≡ Manager.step c inputs m (as_manager x)
  unfolding add_callback call Manager.step add_worker add_options start_worker stop_worker
      cancel_worker stop_all_workers
  call-step c inputs m (adds name x callback priority affinity now moved) = refl
  call-step c inputs m (adds_options options now moved) = refl
  call-step c inputs m (starts name) = refl
  call-step c inputs m (stops name wait) = refl
  call-step c inputs m (cancels name wait) = refl
  call-step c inputs m (stops_all wait) = refl
  call-step c inputs m (turns name i) = refl

  call-IsGood :
      (c : Client) (inputs : Inputs) (m : Manager D) (x : Call D)
      → IsGood m
      → (q : Manager D) (es : List (Worker.Effect D)) → call c inputs m x ≡ returned (q, es)
      → IsGood q
  call-IsGood c inputs m x g q es e =
      step-IsGood c inputs m (as_manager x) g q es (sym (call-step c inputs m x) ∙ e)

  perform-IsGood :
      (inputs : Inputs) (m : Manager D) (e : Effect)
      → IsGood m
      → (q : Manager D) (es : List (Event D)) → perform inputs m e ≡ returned (q, es)
      → IsGood q
  unfolding perform call
  perform-IsGood inputs m stops_workers g q es e =
      let (r, o, f) = >>=-returned (stop_all_workers none m true inputs) _ e in
      subst IsGood (ap fst_of (returned-inj f))
        (call-IsGood none inputs m (stops_all true) g r.0 r.1 o)
  perform-IsGood inputs m start_spinner g q es e = subst IsGood (ap fst_of (returned-inj e)) g
  perform-IsGood inputs m init_node g q es e = subst IsGood (ap fst_of (returned-inj e)) g
  perform-IsGood inputs m pre_cleanup g q es e = subst IsGood (ap fst_of (returned-inj e)) g
  perform-IsGood inputs m stop_spinner g q es e = subst IsGood (ap fst_of (returned-inj e)) g
  perform-IsGood inputs m cleanup_node g q es e = subst IsGood (ap fst_of (returned-inj e)) g

  perform_all-IsGood :
      (inputs : Inputs) (effects : List Effect) (m : Manager D)
      → IsGood m
      → (q : Manager D) (es : List (Event D)) → perform_all inputs m effects ≡ returned (q, es)
      → IsGood q
  unfolding perform_all
  perform_all-IsGood inputs [] m g q es e = subst IsGood (ap fst_of (returned-inj e)) g
  perform_all-IsGood inputs (x ∷ xs) m g q es e =
      let (r, o, f) = >>=-returned (perform inputs m x) _ e in
      let (rest, u, h) = >>=-returned (perform_all inputs r.0 xs) _ f in
      subst IsGood (ap fst_of (returned-inj h))
        (perform_all-IsGood inputs xs r.0 (perform-IsGood inputs m x g r.0 r.1 o) rest.0 rest.1 u)

  -- What a step keeps, and what it does to `execute`.
  pub record Steps (s q : System D) (os : List (Op D)) : Type 0 where
    pub good : IsGood s.manager → IsGood q.manager
    pub wrap : q.wrap ≡ (Nodewrap.execute s.wrap (wrap_ops os)).0

  then-Steps :
      (o : Op D) (os : List (Op D)) (s r q : System D)
      → Steps s r (o ∷ [])
      → Steps r q os
      → Steps s q (o ∷ os)
  unfolding Nodewrap.execute
  then-Steps (wraps inputs o) os s r q h k = record {
    good = λ g. k.good (h.good g);
    wrap = k.wrap ∙ ap (λ w. (Nodewrap.execute w (wrap_ops os)).0) h.wrap;
  }
  then-Steps (calls c inputs x) os s r q h k = record {
    good = λ g. k.good (h.good g);
    wrap = k.wrap ∙ ap (λ w. (Nodewrap.execute w (wrap_ops os)).0) h.wrap;
  }

  step-Steps :
      (s : System D) (o : Op D) (q : System D) (es : List (Event D))
      → step s o ≡ returned (q, es)
      → Steps s q (o ∷ [])
  unfolding step Nodewrap.execute
  step-Steps s (wraps inputs o) q es e =
      let effects = (Nodewrap.step s.wrap o).1 in
      let (r, u, f) = >>=-returned (perform_all inputs s.manager effects) _ e in
      subst (λ x. Steps s x (wraps inputs o ∷ [])) (ap fst_of (returned-inj f))
        (record {
          good = λ g. perform_all-IsGood inputs effects s.manager g r.0 r.1 u;
          wrap = refl;
        })
  step-Steps s (calls c inputs x) q es e = elim (Bool-cases s.wrap.killed) [
    | inl b ↦
        let same : returned (s, []) ≡ returned (q, es) = simp b at e in
        subst (λ y. Steps s y (calls c inputs x ∷ [])) (ap fst_of (returned-inj same))
          (record { good = λ g. g; wrap = refl })
    | inr b ↦
        let act : (do
          r ← call c inputs s.manager x
          returned (record s { manager = r.0 }, map worker r.1))
            ≡ returned (q, es) =
          simp b at e in
        let (r, u, f) = >>=-returned (call c inputs s.manager x) _ act in
        subst (λ y. Steps s y (calls c inputs x ∷ [])) (ap fst_of (returned-inj f))
          (record { good = λ g. call-IsGood c inputs s.manager x g r.0 r.1 u; wrap = refl })
  ]

  pub run-Steps :
      (os : List (Op D)) (s q : System D) (es : List (Event D))
      → run s os ≡ returned (q, es)
      → Steps s q os
  unfolding run Nodewrap.execute
  run-Steps [] s q es e =
      subst (λ x. Steps s x []) (ap fst_of (returned-inj e)) (record { good = λ g. g; wrap = refl })
  run-Steps (o ∷ os) s q es e =
      let (r, u, f) = >>=-returned (step s o) _ e in
      let (rest, v, h) = >>=-returned (run r.0 os) _ f in
      subst (λ x. Steps s x (o ∷ os)) (ap fst_of (returned-inj h))
        (then-Steps o os s r.0 rest.0 (step-Steps s o r.0 r.1 u) (run-Steps os r.0 rest.0 rest.1 v))

  pub construct-IsGood :
      (h : Handler) (installed : Bool) (signals : Signals)
      → IsGood ((construct {D = D} h installed signals).manager)
  unfolding construct
  construct-IsGood h installed signals = record { sound = tt; distinct = tt }
