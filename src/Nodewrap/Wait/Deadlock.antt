-- ===== src/Nodewrap/Wait/Deadlock.antt =====
-- A signal in a thread that has the mutex of `run` and `stop`.
use any_node.Base.{ℕ, ◌≡◌, refl, ap, arith, Bool, true, false, some, List, ◌∷◌}
use any_node.Nodewrap.Wait.{
  Stop, waiting, System, main, start, called, Step, enters, sleeps, leaves, wakes, calls, locks,
  stores, notifies, returns, Reach, here, next, inside,
}
use any_node.Nodewrap.Wait.Wakeup.{Inv, start-Inv, Step-Inv, Reach-Inv}

abbrev is_waiting : List Stop → Bool
is_waiting (waiting ∷ xs) = true
is_waiting _ = false

record IsStuck (s : System) (i : ℕ) (q : System) : Type 0 where
  held : q.holder ≡ some i
  waits : is_waiting (q.stops i) ≡ true
  running : q.running ≡ s.running
  spot : q.spot ≡ s.spot

Step-IsStuck :
    {q r : System} (s : System) (i : ℕ) → Step q r → Inv q → IsStuck s i q → IsStuck s i r
Step-IsStuck s i (enters e a h f) v w = absurd (ground (arith, w.held))
Step-IsStuck s i (sleeps e a h f) v w =
    absurd (ground (arith, w.held, w.waits, v.exclusive main, ap is_waiting a))
Step-IsStuck s i (leaves e a h f) v w =
    absurd (ground (arith, w.held, w.waits, v.exclusive main, ap is_waiting a))
Step-IsStuck s i (wakes e a h f) v w = absurd (ground (arith, w.held))
Step-IsStuck s i (calls j f) v w = ground (arith, w)
Step-IsStuck s i (locks j xs e h f) v w = absurd (ground (arith, w.held))
Step-IsStuck s i (stores j xs e f) v w =
    absurd (ground (arith, w.held, w.waits, v.exclusive j, ap inside e, ap is_waiting e))
Step-IsStuck s i (notifies j xs e f) v w =
    absurd (ground (arith, w.held, w.waits, v.exclusive j, ap inside e, ap is_waiting e))
Step-IsStuck s i (returns j xs e f) v w =
    absurd (ground (arith, w.held, w.waits, v.exclusive j, ap inside e, ap is_waiting e))

Reach-IsStuck :
    {q r : System} (s : System) (i : ℕ) → Reach q r → Inv q → IsStuck s i q → IsStuck s i r
Reach-IsStuck s i here v w = w
Reach-IsStuck s i (next r st) v w = Step-IsStuck s i st (Reach-Inv r v) (Reach-IsStuck s i r v w)

-- A signal may come to a thread that has the mutex, in `run` or in `stop`. From then on, whatever
-- follows, that thread keeps the mutex, `running_` is as it was, and `run` goes no further.
pub signal_lem :
    (running : Bool) (s q : System) (i : ℕ)
    → Reach (start running) s
    → s.holder ≡ some i
    → Reach (called s i) q
    → Step s (called s i) × (q.holder ≡ some i) × (q.running ≡ s.running) × (q.spot ≡ s.spot)
signal_lem running s q i r h u =
    let st : Step s (called s i) = calls i refl in
    let v = Step-Inv st (Reach-Inv r (start-Inv running)) in
    let w =
      Reach-IsStuck s i u v
        (record { held = h; waits = ground arith; running = refl; spot = refl }) in
    (st, w.held, w.running, w.spot)
