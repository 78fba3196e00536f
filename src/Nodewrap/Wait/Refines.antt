-- ===== src/Nodewrap/Wait/Refines.antt =====
-- That `run` and `stop` with the mutex do what the turns of `waiting` and the calls of `stop` of
-- Nodewrap.Defs do.
use any_node.Nodewrap.Wait.Wakeup.{start-Inv, Reach-Inv}
use any_node.Base.{
  ℕ, ◌+◌, ◌≡◌, refl, sym, ap, append_assoc, ◌∙◌, arith, true, false, List, [], ◌∷◌, ◌++◌,
}
use any_node.Nodewrap.Defs as Nodewrap
use any_node.Nodewrap.Defs.{
  Nodewrap, Phase, cleaning, Op, turns, stops, Effect, step, execute, turn_at, stop,
}
use any_node.Nodewrap.Wait.{
  Spot, ended, System, start, Step, enters, sleeps, leaves, wakes, calls, locks, stores, notifies,
  returns, Reach, here, next, inside, in_run, holds,
}

-- The phase of `execute` while the thread stands there.
abbrev pub phase_at : Spot → Phase
phase_at ended = cleaning true
phase_at _ = Nodewrap.waiting

abbrev pub view : Nodewrap → System → Nodewrap
view n s = record n { running = s.running; phase = phase_at s.spot }

-- The steps of `Nodewrap.Defs` that one step with the mutex stands for.
abbrev pub ops_of : {s q : System} → Step s q → List Op
ops_of (leaves e a r f) = turns true ∷ []
ops_of (stores i xs e f) = stops ∷ []
ops_of _ = []

abbrev pub all_ops : {s q : System} → Reach s q → List Op
all_ops here = []
all_ops (next r st) = all_ops r ++ ops_of st

execute-append :
    (n : Nodewrap) (os ps : List Op)
    → execute n (os ++ ps)
      ≡ (let (q, es) = execute n os in let (r, fs) = execute q ps in (r, es ++ fs))
unfolding execute
execute-append n [] ps = refl
execute-append n (o ∷ os) ps =
    let (m, es) = step n o in
    let (q, fs) = execute m os in
    let (r, gs) = execute q ps in
    ap (λ (x : Nodewrap × List Effect). (x.0, es ++ x.1)) (execute-append m os ps)
    ∙ ap (λ ts. (r, ts)) (sym (append_assoc es fs gs))

same_view :
    (n : Nodewrap) (s q : System)
    → q.running ≡ s.running
    → phase_at q.spot ≡ phase_at s.spot
    → ◌≡◌ {A = Nodewrap × List Effect} (view n s, []) (view n q, [])
same_view n s q h k i = (record n { running = sym h i; phase = sym k i }, [])

step_view :
    {s q : System} (n : Nodewrap)
    → n.killed ≡ false
    → (st : Step s q) → execute (view n s) (ops_of st) ≡ (view n q, [])
unfolding execute step turn_at stop
step_view {s} {q} n k (enters e a h f) = same_view n s q (ap (λ y. y.running) f) (ground (arith, e))
step_view {s} {q} n k (sleeps e a h f) = same_view n s q (ap (λ y. y.running) f) (ground (arith, e))
step_view {s} {q} n k (leaves e a h f) = ground (arith, k, e, h, f)
step_view {s} {q} n k (wakes e a h f) = same_view n s q (ap (λ y. y.running) f) (ground (arith, e))
step_view {s} {q} n k (calls j f) =
    same_view n s q (ap (λ y. y.running) f) (ap (λ y. phase_at y.spot) f)
step_view {s} {q} n k (locks j xs e h f) =
    same_view n s q (ap (λ y. y.running) f) (ap (λ y. phase_at y.spot) f)
step_view {s} {q} n k (stores j xs e f) = ground (arith, k, f)
step_view {s} {q} n k (notifies j xs e f) =
    same_view n s q (ap (λ y. y.running) f) (ap (λ y. phase_at y.spot) f)
step_view {s} {q} n k (returns j xs e f) =
    same_view n s q (ap (λ y. y.running) f) (ap (λ y. phase_at y.spot) f)

after : Nodewrap × List Effect → List Op → Nodewrap × List Effect
after x ps = let (r, fs) = execute x.0 ps in (r, x.1 ++ fs)

all_view :
    (n : Nodewrap)
    → n.killed ≡ false
    → n.phase ≡ Nodewrap.waiting
    → {s : System} → (r : Reach (start n.running) s) → execute n (all_ops r) ≡ (view n s, [])
unfolding execute after
all_view n k w here = λ i. (record n { phase = w i }, [])
all_view n k w (next r st) =
    execute-append n (all_ops r) (ops_of st)
    ∙ ap (λ x. after x (ops_of st)) (all_view n k w r)
    ∙ step_view n k st

-- From a node that has not been killed and whose `execute` is in `run`, whatever `run` and the calls of
-- `stop` do with the mutex: at most one of them has it, that of the thread that holds it; and one turn
-- of `execute` for the end of `run`, and one call of `stop` for each store of `running_`, in the order
-- of the steps, lead to the same `running_`, have left `run` if and only if it has been left, and call
-- nothing of the node.
pub refines_lem :
    (n : Nodewrap) (s : System)
    → n.killed ≡ false
    → n.phase ≡ Nodewrap.waiting
    → (r : Reach (start n.running) s)
    → ((i : ℕ) → inside (s.stops i) + in_run s.spot i ≡ holds s.holder i)
      × (execute n (all_ops r) ≡ (view n s, []))
refines_lem n s k w r = ((Reach-Inv r (start-Inv n.running)).exclusive, all_view n k w r)
