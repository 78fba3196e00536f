-- ===== src/Worker/Stop.antt =====
-- How a worker's thread ends, and what that means for the next `start`.
use any_node.Base.{
  ℕ, zero, suc, ◌+◌, ◌≤◌, ◌<◌, ◌≡◌, refl, ◌∙◌, ap, arith, dec_lt, true, false, List, [], ◌∷◌, ◌++◌,
  map, Bool-cases, inl, inr,
}
use any_node.Double.{Double}
use any_node.Rate
use any_node.Rate.{SleepEffect}
use any_node.Worker.Defs.{
  Worker, Pc, begin, once, repeat, calling, sleeping, testing, ending, exited, Thread, no_thread,
  thread, joinable, Input, Effect, call, rate, Outcome, returned, other_thread, turn_at, turn_of,
  turn, turns, join, stop,
}

module _ {D : Type 0} where
  -- How often the callback is called.
  abbrev pub calls : List (Effect D) → ℕ
  calls [] = 0
  calls (call c e ∷ es) = suc (calls es)
  calls (_ ∷ es) = calls es

  pub calls-append : (es fs : List (Effect D)) → calls (es ++ fs) ≡ calls es + calls fs
  calls-append [] fs = omega arith
  calls-append (call c e ∷ es) fs = omega (arith, calls-append es fs)
  calls-append (_ ∷ es) fs = omega (arith, calls-append es fs)

pub calls-rate : (D : Type 0) (es : List SleepEffect) → calls {D = D} (map rate es) ≡ 0
calls-rate D [] = refl
calls-rate D (e ∷ es) = calls-rate D es

-- The turns to the end of `run`, and the calls of the callback on the way, once `running_` is false.
abbrev left : Pc → ℕ
left begin = 6
left repeat = 5
left calling = 4
left sleeping = 3
left testing = 2
left once = 2
left ending = 1
left exited = 0

abbrev calls_left : Pc → ℕ
calls_left begin = 1
calls_left repeat = 1
calls_left _ = 0

left-zero : (p : Pc) → ¬ (0 < left p) → p ≡ exited
left-zero p h = ground arith

module _ {D : Type 0} ⦃d : Double D⦄ where
  -- A turn of a thread that is told to stop: it comes nearer to its end, and calls the callback
  -- only if it stood before the call.
  record Winds (p : Pc) (w : Worker D) (r : Worker D × List (Effect D)) (q : Pc) : Type 0 where
    handle : r.0.handle ≡ thread q
    stopped : r.0.running ≡ false
    options : r.0.options ≡ w.options
    nearer : left q + 1 ≤ left p
    budget : calls r.1 + calls_left q ≤ calls_left p
    done : q ≡ exited → r.0.done ≡ true

  turn-Winds :
      (p : Pc) (w : Worker D) (i : Input)
      → w.running ≡ false
      → 0 < left p
      → (q : Pc) × Winds p w (turn_at p w i) q
  unfolding turn_at
  turn-Winds begin w i h k = elim (Bool-cases (d.is_inf w.time_step)) [
    | inl e ↦ (once, rw e (ground arith))
    | inr e ↦ (repeat, rw e (ground arith))
  ]
  turn-Winds once w i h k = (ending, ground arith)
  turn-Winds repeat w i h k = (calling, ground arith)
  turn-Winds calling w i h k = (sleeping, ground arith)
  turn-Winds sleeping w i h k =
      (testing, ground (arith, calls-rate D (Rate.sleep w.rate i.now i.later).1))
  turn-Winds testing w i h k = (ending, ground arith)
  turn-Winds ending w i h k = (exited, ground arith)
  turn-Winds exited w i h k = absurd (omega arith)

  pub turn-thread :
      (p : Pc) (w : Worker D) (i : Input) → w.handle ≡ thread p → turn w i ≡ turn_at p w i
  unfolding turn
  turn-thread p w i e = ap (λ h. turn_of h w i) e

  -- Enough turns take such a thread out of `run`, with at most one call of the callback.
  record Ends (p : Pc) (w : Worker D) (r : Worker D × List (Effect D)) : Type 0 where
    handle : r.0.handle ≡ thread exited
    stopped : r.0.running ≡ false
    options : r.0.options ≡ w.options
    budget : calls r.1 ≤ calls_left p
    done : r.0.done ≡ true

  turn_at-exited : (p : Pc) (w : Worker D) (i : Input) → p ≡ exited → turn_at p w i ≡ (w, [])
  unfolding turn_at
  turn_at-exited p w i e = rw e

  -- One turn, then the rest.
  after :
      (p q : Pc) (w : Worker D) (r s : Worker D × List (Effect D))
      → Winds p w r q
      → Ends q r.0 s
      → Ends p w (s.0, r.1 ++ s.1)
  after p q w r s v k = record {
    handle = k.handle;
    stopped = k.stopped;
    options = k.options ∙ v.options;
    budget = omega (arith, calls-append r.1 s.1, v.budget, k.budget);
    done = k.done;
  }

  turns_end :
      (n : ℕ) (p : Pc) (w : Worker D) (inputs : ℕ → Input)
      → w.handle ≡ thread p
      → w.running ≡ false
      → (p ≡ exited → w.done ≡ true)
      → left p ≤ n
      → Ends p w (turns n w inputs)
  unfolding turns
  turns_end zero p w inputs e h k l =
      let out = left-zero p (omega arith) in
      record {
        handle = rw out at e;
        stopped = h;
        options = refl;
        budget = omega arith;
        done = k out;
      }
  turns_end (suc n) p w inputs e h k l = elim (dec_lt 0 (left p)) [
    | yes more ↦
        let (q, v) = turn-Winds p w (inputs 0) h more in
        rw (turn-thread p w (inputs 0) e) (
          after p q w (turn_at p w (inputs 0)) _ v (
            turns_end n q _ (λ j. inputs (suc j)) v.handle v.stopped v.done
              (omega (arith, v.nearer))))
    | no over ↦
        let out = left-zero p over in
        rw (turn-thread p w (inputs 0) e) (
          rw (turn_at-exited p w (inputs 0) out)
            (turns_end n p w (λ j. inputs (suc j)) e h k (rw out (omega arith))))
  ]

  -- What a handle says of the worker that owns it: a thread that is out of `run` has set `done_`.
  pub record IsSound (w : Worker D) : Type 0 where
    pub done : w.handle ≡ thread exited → w.done ≡ true
    pub owned : w.running ≡ true → joinable w.handle ≡ true

  -- What a worker `w` has become when its thread was waited for, with the effects `es`.
  pub record Waited (w q : Worker D) (es : List (Effect D)) : Type 0 where
    pub handle : q.handle ≡ no_thread
    pub running : q.running ≡ false
    pub options : q.options ≡ w.options
    pub budget : calls es ≤ 1
    pub done : joinable w.handle ≡ true → q.done ≡ true

  abbrev pub ReturnsWaited : Worker D → Outcome (Worker D × List (Effect D)) → Type 0
  ReturnsWaited w out =
      (q : Worker D) × (es : List (Effect D)) × (out ≡ returned (q, es)) × Waited w q es

  -- `join` returns as soon as `running_` is false.
  join_ends :
      (p : Pc) (w : Worker D) (inputs : ℕ → Input)
      → w.handle ≡ thread p
      → w.running ≡ false
      → (p ≡ exited → w.done ≡ true)
      → ReturnsWaited w (join w inputs)
  unfolding join
  join_ends p w inputs e h k =
      let r = turns 6 w inputs in
      let v = turns_end 6 p w inputs e h k (ground arith) in
      (
        record r.0 { handle = no_thread },
        r.1,
        rw (v.handle, join),
        record {
          handle = refl;
          running = v.stopped;
          options = v.options;
          budget = ground (arith, v.budget);
          done = λ _. v.done;
        },
      )

  stop_from :
      (h : Thread) (w : Worker D) (inputs : ℕ → Input)
      → w.handle ≡ h
      → IsSound w
      → ReturnsWaited w (stop other_thread true w inputs)
  unfolding stop
  stop_from no_thread w inputs e v = (
    record w { running = false },
    [],
    simp e,
    record {
      handle = e;
      running = refl;
      options = refl;
      budget = omega arith;
      done = λ j. cc (ap joinable e);
    },
  )
  stop_from (thread p) w inputs e v =
      let stopped : Worker D = record w { running = false } in
      let (q, es, j, k) = join_ends p stopped inputs e refl (λ out. v.done (e ∙ ap thread out)) in
      let joins : joinable w.handle ≡ true = ap joinable e in
      (
        q,
        es,
        rw joins j,
        record {
          handle = k.handle;
          running = k.running;
          options = k.options;
          budget = k.budget;
          done = λ _. k.done joins;
        },
      )

  pub stop_waits :
      (w : Worker D) (inputs : ℕ → Input)
      → IsSound w
      → ReturnsWaited w (stop other_thread true w inputs)
  stop_waits w inputs v = stop_from w.handle w inputs refl v
