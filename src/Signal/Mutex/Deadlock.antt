-- ===== src/Signal/Mutex/Deadlock.antt =====
-- How a thread comes to wait for a mutex that it holds, and that nothing else stops a call.
use any_node.Base.{
  ℕ, ◌≡◌, ◌≢◌, refl, ap, arith, Bool, true, false, ◌⊎◌, inl, inr, Option, none, some, List, [], ◌∷◌,
}
use any_node.Signal.Defs.{Signals, signaled_function}
use any_node.Signal.Mutex.{
  Call, Frame, waiting, inside, Write, apply, System, start, update, interrupted, Step, calls,
  interrupts, locks, writes, returns, Reach, here, next, insides, holds,
}
use any_node.Signal.Mutex.Serial.{Inv, start-Inv, Step-Inv, Reach-Inv}

-- A thread holds the mutex, and waits for it.
abbrev pub is_waiting : List Frame → Bool
is_waiting (waiting c ∷ fs) = true
is_waiting _ = false

record IsStuck (s : System) (i : ℕ) (q : System) : Type 0 where
  held : q.holder ≡ some i
  waits : is_waiting (q.stacks i) ≡ true
  signals : q.signals ≡ s.signals
  log : q.log ≡ s.log

Step-IsStuck :
    {q r : System} (signals : Signals) (s : System) (i : ℕ)
    → Step q r
    → Inv signals q
    → IsStuck s i q
    → IsStuck s i r
Step-IsStuck signals s i (calls j c e f) v w = ground (arith, w)
Step-IsStuck signals s i (interrupts j sig e f) v w = ground (arith, w)
Step-IsStuck signals s i (locks j c fs h e f) v w = ground (arith, w)
Step-IsStuck signals s i (writes j c x ws fs e f) v w =
    ground (arith, w, v.exclusive j, ap insides e, ap is_waiting e)
Step-IsStuck signals s i (returns j c fs e f) v w =
    ground (arith, w, v.exclusive j, ap insides e, ap is_waiting e)

Reach-IsStuck :
    {q r : System} (signals : Signals) (s : System) (i : ℕ)
    → Reach q r
    → Inv signals q
    → IsStuck s i q
    → IsStuck s i r
Reach-IsStuck signals s i here v w = w
Reach-IsStuck signals s i (next r st) v w =
    Step-IsStuck signals s i st (Reach-Inv signals r v) (Reach-IsStuck signals s i r v w)

interrupted-IsStuck :
    (signals : Signals) (s : System) (i sig : ℕ) (c : Call) (ws : List Write) (fs : List Frame)
    → Inv signals s
    → s.stacks i ≡ inside c ws ∷ fs
    → IsStuck s i (interrupted s i sig)
interrupted-IsStuck signals s i sig c ws fs v e = record {
  held = ground (arith, v.exclusive i, ap insides e);
  waits = ground arith;
  signals = refl;
  log = refl;
}

-- A signal with a handler may come to a thread that is in a call and has the mutex, wherever it stands
-- in its writes. From then on,
-- whatever calls and signals follow, that thread has the mutex, no call of any thread returns, and the
-- handlers and the dispositions are as they were.
pub interrupted_lem :
    (signals : Signals) (s q : System) (i sig : ℕ) (c : Call) (ws : List Write) (fs : List Frame)
    → Reach (start signals) s
    → s.stacks i ≡ inside c ws ∷ fs
    → s.signals.disposition sig ≡ signaled_function
    → Reach (interrupted s i sig) q
    → Step s (interrupted s i sig) × (q.holder ≡ some i) × (q.log ≡ s.log) × (q.signals ≡ s.signals)
interrupted_lem signals s q i sig c ws fs r e d u =
    let v = Reach-Inv signals r (start-Inv signals) in
    let st : Step s (interrupted s i sig) = interrupts i sig d refl in
    let w =
      Reach-IsStuck signals s i u (Step-Inv signals st v)
        (interrupted-IsStuck signals s i sig c ws fs v e) in
    (st, w.held, w.log, w.signals)

-- The mutex can be taken or given back.
abbrev pub Moves : System → Type 0
Moves s = (q : System) × Reach s q × (q.holder ≢ s.holder)

abbrev pub HoldsItself : System → Type 0
HoldsItself s = (i : ℕ) × (s.holder ≡ some i) × (is_waiting (s.stacks i) ≡ true)

first : {s q r : System} → Step s q → Reach q r → Reach s r
first st here = next here st
first st (next u v) = next (first st u) v

takes :
    (s : System) (j : ℕ) (fs : List Frame)
    → s.holder ≡ none
    → s.stacks j ≡ fs
    → is_waiting fs ≡ true
    → Moves s
takes s j [] h e w = cc
takes s j (inside c ws ∷ fs) h e w = cc
takes s j (waiting c ∷ fs) h e w = (_, next here (locks j c fs h e refl), ground arith)

-- A call that is not interrupted writes what it is to write, and returns.
finishes :
    (ws : List Write) (s : System) (i : ℕ) (c : Call) (fs : List Frame)
    → s.stacks i ≡ inside c ws ∷ fs
    → (q : System) × Reach s q × (q.holder ≡ none)
finishes [] s i c fs e = (_, next here (returns i c fs e refl), refl)
finishes (w ∷ ws) s i c fs e =
    let r : System = record s {
      signals = apply w s.signals;
      stacks = update s.stacks i (inside c ws ∷ fs);
    } in
    let (q, u, h) = finishes ws r i c fs (ground arith) in
    (q, first (writes i c w ws fs e refl) u, h)

gives :
    (s : System) (i : ℕ) (fs : List Frame)
    → s.holder ≡ some i
    → insides fs ≡ 1
    → s.stacks i ≡ fs
    → Moves s ⊎ HoldsItself s
gives s i [] h n e = absurd (omega arith)
gives s i (waiting c ∷ fs) h n e = inr (i, h, ap is_waiting e)
gives s i (inside c ws ∷ fs) h n e =
    let (q, u, g) = finishes ws s i c fs e in inl (q, u, ground (arith, g, h))

by_holder :
    (s : System) (j : ℕ) (o : Option ℕ)
    → s.holder ≡ o
    → ((i : ℕ) → insides (s.stacks i) ≡ holds s.holder i)
    → is_waiting (s.stacks j) ≡ true
    → Moves s ⊎ HoldsItself s
by_holder s j none h v w = inl (takes s j (s.stacks j) h refl w)
by_holder s j (some i) h v w = gives s i (s.stacks i) h (ground (arith, v i)) refl

-- While a call waits for the mutex there are steps that take it or give it back,
-- unless the thread that has it waits for it too.
pub progress_lem :
    (signals : Signals) (s : System) (j : ℕ)
    → Reach (start signals) s
    → is_waiting (s.stacks j) ≡ true
    → ((q : System) × Reach s q × (q.holder ≢ s.holder))
      ⊎ ((i : ℕ) × (s.holder ≡ some i) × (is_waiting (s.stacks i) ≡ true))
progress_lem signals s j r w =
    by_holder s j s.holder refl (Reach-Inv signals r (start-Inv signals)).exclusive w
