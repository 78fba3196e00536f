-- ===== src/Signal/Mutex/Serial.antt =====
-- That the calls have the mutex one after the other.
use any_node.Base.{
  ℕ, ◌≤◌, ◌≡◌, refl, sym, ap, ◌∙◌, subst, arith, ◌==◌, true, false, ◌⊎◌, inl, inr, Bool-cases,
  Option, none, some, some_inj, List, [], ◌∷◌,
}
use any_node.Base.Dict.{find, nat_eq, erase-put}
use any_node.Signal.Defs.{
  Signals, Handler, bind, unbind, unbind_signal, leave, unbind_in, clear_in, has_type, remove_type,
}
use any_node.Signal.Mutex.{
  Call, binds, unbinds, clears, delivers, perform, Frame, waiting, inside, Write, apply, apply_all,
  writes_of, bind_writes, leave_writes, unbind_writes, clear_writes, System, start, update, Step,
  calls, interrupts, locks, writes, returns, Reach, here, next, current, insides, holds, replay,
}

-- The writes of a call are what the method does.
leave_lem :
    (s : Signals) (sig : ℕ) (hs : List Handler) → apply_all (leave_writes sig hs) s ≡ leave s sig hs
unfolding apply_all
leave_lem s sig [] = rw (erase-put sig [] s.handlers) refl
leave_lem s sig (h ∷ hs) = refl

unbind_lem :
    (s : Signals) (sig : ℕ) (h : Handler) (o : Option (List Handler))
    → apply_all (unbind_writes sig h o) s ≡ unbind_in s sig h o
unfolding apply_all
unbind_lem s sig h none = refl
unbind_lem s sig h (some hs) = elim (Bool-cases (has_type h hs)) [
  | inl e ↦ rw e (leave_lem s sig (remove_type h hs))
  | inr e ↦ rw e refl
]

bind_lem :
    (s : Signals) (sig : ℕ) (h : Handler) (o : Option (List Handler))
    → find sig s.handlers ≡ o
    → apply_all (bind_writes sig h o) s ≡ bind s sig h
unfolding apply_all bind has_type
bind_lem s sig h none e = rw e refl
bind_lem s sig h (some hs) e = elim (Bool-cases (has_type h hs)) [
  | inl f ↦ ground (arith, e, f)
  | inr f ↦ ground (arith, e, f)
]

clear_lem :
    (s : Signals) (sig : ℕ) (o : Option (List Handler))
    → apply_all (clear_writes sig o) s ≡ clear_in s sig o
unfolding apply_all
clear_lem s sig none = refl
clear_lem s sig (some hs) = refl

pub apply_all-writes_of : (c : Call) (s : Signals) → apply_all (writes_of c s) s ≡ perform c s
unfolding writes_of perform unbind unbind_signal apply_all
apply_all-writes_of (binds sig h) s = bind_lem s sig h (find sig s.handlers) refl
apply_all-writes_of (unbinds sig h) s = unbind_lem s sig h (find sig s.handlers)
apply_all-writes_of (clears sig) s = clear_lem s sig (find sig s.handlers)
apply_all-writes_of (delivers sig) s = refl

-- With what the call that has the mutex is still to write, the handlers and dispositions are those
-- after the calls that have returned, and this one.
pub record Inv (signals : Signals) (s : System) : Type 0 where
  pub exclusive : (i : ℕ) → insides (s.stacks i) ≡ holds s.holder i
  pub serial : s.holder ≡ none → s.signals ≡ replay s.log signals
  pub underway :
      (i : ℕ) (c : Call) (ws : List Write)
      → current (s.stacks i) ≡ some (c, ws)
      → apply_all ws s.signals ≡ perform c (replay s.log signals)

Step-exclusive :
    {s q : System}
    → Step s q
    → ((i : ℕ) → insides (s.stacks i) ≡ holds s.holder i)
    → (j : ℕ) → insides (q.stacks j) ≡ holds q.holder j
Step-exclusive (calls i c e f) v j = ground (arith, v i, v j)
Step-exclusive (interrupts i sig e f) v j = ground (arith, v i, v j)
Step-exclusive (locks i c fs h e f) v j = ground (arith, v i, v j, ap insides e)
Step-exclusive (writes i c w ws fs e f) v j = ground (arith, v i, v j, ap insides e)
Step-exclusive (returns i c fs e f) v j = ground (arith, v i, v j, ap insides e)

current-insides :
    (fs : List Frame) (c : Call) (ws : List Write) → current fs ≡ some (c, ws) → 1 ≤ insides fs
current-insides [] c ws e = cc
current-insides (waiting d ∷ fs) c ws e = current-insides fs c ws e
current-insides (inside d us ∷ fs) c ws e = omega arith

pub start-Inv : (signals : Signals) → Inv signals (start signals)
unfolding replay
start-Inv signals = record { exclusive = λ i. refl; serial = λ h. refl; underway = λ i c ws e. cc }

module _ (signals : Signals) (s : System) (v : Inv signals s) where
  -- No other thread's call has the mutex.
  alone :
      (i j : ℕ) (d : Call) (us : List Write)
      → 1 ≤ insides (s.stacks i)
      → current (s.stacks j) ≡ some (d, us)
      → i ≡ j
  alone i j d us n e =
      ground (arith, v.exclusive i, v.exclusive j, current-insides (s.stacks j) d us e)

  waits-Inv :
      (i : ℕ) (c : Call)
      → Inv signals (record s { stacks = update s.stacks i (waiting c ∷ s.stacks i) })
  waits-Inv i c = record {
    exclusive = λ j. ground (arith, v.exclusive i, v.exclusive j);
    serial = v.serial;
    underway = λ j d us e. v.underway j d us (same j (Bool-cases (i == j)) ∙ e);
  }
    where
      same :
          (j : ℕ)
          → ((i == j) ≡ true) ⊎ ((i == j) ≡ false)
          → current (s.stacks j) ≡ current (update s.stacks i (waiting c ∷ s.stacks i) j)
      same j (inl b) = ground arith
      same j (inr b) = ground arith

  -- The stack of a thread after a change of one thread's.
  at_update :
      (i j : ℕ) (xs : List Frame)
      → ((i ≡ j) × (update s.stacks i xs j ≡ xs))
        ⊎ (((i == j) ≡ false) × (update s.stacks i xs j ≡ s.stacks j))
  at_update i j xs = elim (Bool-cases (i == j)) [
    | inl b ↦ inl (ground arith, rw b refl)
    | inr b ↦ inr (b, rw b refl)
  ]

  -- The mutex is free: nobody is inside.
  nobody :
      s.holder ≡ none
      → (j : ℕ) (d : Call) (us : List Write) → current (s.stacks j) ≡ some (d, us)
      → ⊥
  nobody h j d us e = ground (arith, h, v.exclusive j, current-insides (s.stacks j) d us e)

  locks-underway :
      (i : ℕ) (c : Call) (fs : List Frame)
      → s.holder ≡ none
      → (j : ℕ) (d : Call) (us : List Write)
      → current (update s.stacks i (inside c (writes_of c s.signals) ∷ fs) j) ≡ some (d, us)
      → apply_all us s.signals ≡ perform d (replay s.log signals)
  locks-underway i c fs h j d us e = elim (at_update i j (inside c (writes_of c s.signals) ∷ fs)) [
    | inl (b, f) ↦
        let g : some (c, writes_of c s.signals) ≡ some (d, us) = sym (ap current f) ∙ e in
        subst
          (λ (x : Call × List Write). apply_all x.1 s.signals ≡ perform x.0 (replay s.log signals))
          (some_inj _ _ g) (apply_all-writes_of c s.signals ∙ ap (perform c) (v.serial h))
    | inr (b, f) ↦ absurd (nobody h j d us (sym (ap current f) ∙ e))
  ]

  writes-underway :
      (i : ℕ) (c : Call) (w : Write) (ws : List Write) (fs : List Frame)
      → s.stacks i ≡ inside c (w ∷ ws) ∷ fs
      → (j : ℕ) (d : Call) (us : List Write)
      → current (update s.stacks i (inside c ws ∷ fs) j) ≡ some (d, us)
      → apply_all us (apply w s.signals) ≡ perform d (replay s.log signals)
  unfolding apply_all
  writes-underway i c w ws fs a j d us e = elim (at_update i j (inside c ws ∷ fs)) [
    | inl (b, f) ↦
        let g : some (c, ws) ≡ some (d, us) = sym (ap current f) ∙ e in
        subst
          (λ (x : Call × List Write).
            apply_all x.1 (apply w s.signals) ≡ perform x.0 (replay s.log signals))
          (some_inj _ _ g) (v.underway i c (w ∷ ws) (ap current a))
    | inr (b, f) ↦
        let same : i ≡ j = alone i j d us (ground (arith, ap insides a)) (sym (ap current f) ∙ e) in
        absurd (ground arith)
  ]

  returns-underway :
      (i : ℕ) (c : Call) (fs : List Frame)
      → s.stacks i ≡ inside c [] ∷ fs
      → (j : ℕ) (d : Call) (us : List Write) → current (update s.stacks i fs j) ≡ some (d, us)
      → ⊥
  returns-underway i c fs a j d us e = elim (at_update i j fs) [
    | inl (b, f) ↦
        let k = current-insides fs d us (sym (ap current f) ∙ e) in
        ground (arith, v.exclusive i, ap insides a, k)
    | inr (b, f) ↦
        let same : i ≡ j = alone i j d us (ground (arith, ap insides a)) (sym (ap current f) ∙ e) in
        absurd (ground arith)
  ]

pub Step-Inv : {s q : System} (signals : Signals) → Step s q → Inv signals s → Inv signals q
unfolding apply_all replay
Step-Inv {s} signals (calls i c e f) v = subst (Inv signals) (sym f) (waits-Inv signals s v i c)
Step-Inv {s} signals (interrupts i sig e f) v =
    subst (Inv signals) (sym f) (waits-Inv signals s v i (delivers sig))
Step-Inv {s} signals (locks i c fs h e f) v = subst (Inv signals) (sym f) record {
  exclusive = Step-exclusive {s = s} (locks i c fs h e refl) v.exclusive;
  serial = λ k. cc;
  underway = locks-underway signals s v i c fs h;
}
Step-Inv {s} signals (writes i c w ws fs e f) v = subst (Inv signals) (sym f) record {
  exclusive = Step-exclusive {s = s} (writes i c w ws fs e refl) v.exclusive;
  serial = λ k. absurd (ground (arith, k, v.exclusive i, ap insides e));
  underway = writes-underway signals s v i c w ws fs e;
}
Step-Inv {s} signals (returns i c fs e f) v = subst (Inv signals) (sym f) record {
  exclusive = Step-exclusive {s = s} (returns i c fs e refl) v.exclusive;
  serial = λ k. v.underway i c [] (ap current e);
  underway = λ j d us g. absurd (returns-underway signals s v i c fs e j d us g);
}

pub Reach-Inv : {s q : System} (signals : Signals) → Reach s q → Inv signals s → Inv signals q
Reach-Inv signals here v = v
Reach-Inv signals (next r st) v = Step-Inv signals st (Reach-Inv signals r v)

insides-current :
    (fs : List Frame)
    → insides fs ≡ 1
    → (c : Call) × (ws : List Write) × (current fs ≡ some (c, ws))
insides-current [] e = absurd (omega arith)
insides-current (waiting c ∷ fs) e = insides-current fs e
insides-current (inside c ws ∷ fs) e = (c, ws, refl)

-- Between the calls, or in one.
abbrev pub Serial : Signals → System → Type 0
Serial signals q =
    ((q.holder ≡ none) × (q.signals ≡ replay q.log signals))
    ⊎ ((i : ℕ) × (c : Call) × (ws : List Write) × (q.holder ≡ some i)
        × (current (q.stacks i) ≡ some (c, ws))
        × (apply_all ws q.signals ≡ perform c (replay q.log signals)))

by_holder :
    (signals : Signals) (q : System) (o : Option ℕ)
    → q.holder ≡ o
    → Inv signals q
    → Serial signals q
by_holder signals q none h v = inl (h, v.serial h)
by_holder signals q (some i) h v =
    let (c, ws, e) = insides-current (q.stacks i) (ground (arith, v.exclusive i, h)) in
    inr (i, c, ws, h, e, v.underway i c ws e)

-- Whatever calls and signals come between one another, with each write of a call a step: at most one
-- call has the mutex, that of the thread that holds it. While none has it, the handlers and dispositions
-- are those after the calls that have returned, one after the other in the order in which they
-- returned; while a call has it, what it is still to write leads to those after these calls and itself.
pub serial_lem :
    (signals : Signals) (q : System)
    → Reach (start signals) q
    → ((i : ℕ) → insides (q.stacks i) ≡ holds q.holder i)
      × (((q.holder ≡ none) × (q.signals ≡ replay q.log signals))
          ⊎ ((i : ℕ) × (c : Call) × (ws : List Write) × (q.holder ≡ some i)
              × (current (q.stacks i) ≡ some (c, ws))
              × (apply_all ws q.signals ≡ perform c (replay q.log signals))))
serial_lem signals q r =
    let v = Reach-Inv signals r (start-Inv signals) in
    (v.exclusive, by_holder signals q q.holder refl v)
