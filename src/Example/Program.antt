-- ===== src/Example/Program.antt =====
-- The exit status of the program.
use any_node.Base.{
  ℕ, ◌==◌, ◌≡◌, refl, ◌∙◌, ap, Bool, true, false, ◌&&◌, List, [], ◌∷◌, some, Bool-cases, inl, inr,
}
use any_node.Base.Int.{ℤ, pos}
use any_node.Nodewrap.{
  Nodewrap, Phase, created, initializing, waiting, cleaning, stopping, finished, construct, Op,
  turns, stops, gets, step, execute, turn_at, stop, end_init, begin_init, begin_cleanup,
  end_cleanup, on_signal, live_step, on_delivery, signal_handler, sigsegv,
}
use any_node.Signal.{Handler, Signals, Delivery, system_action, calls, deliver, has_type}
use any_node.Example.Defs.{main}

-- `init` of the example returns true (`Init.init_lem`), and so does each turn that takes its result.
abbrev pub inits : List Op → Bool
inits [] = true
inits (turns ok ∷ os) = ok && inits os
inits (stops ∷ os) = inits os
inits (gets signum ∷ os) = inits os

abbrev has_succeeded : Phase → Bool
has_succeeded (cleaning result) = result
has_succeeded (stopping result) = result
has_succeeded (finished result) = result
has_succeeded _ = true

turn_at-has_succeeded :
    (p : Phase) (n : Nodewrap)
    → has_succeeded p ≡ true
    → n.phase ≡ p
    → has_succeeded (turn_at p n true).0.phase ≡ true
unfolding turn_at end_init begin_init begin_cleanup end_cleanup
turn_at-has_succeeded created n h e = refl
turn_at-has_succeeded initializing n h e = refl
turn_at-has_succeeded waiting n h e = elim (Bool-cases n.running) [
  | inl r ↦ rw r (rw e)
  | inr r ↦ rw r
]
turn_at-has_succeeded (cleaning result) n h e = h
turn_at-has_succeeded (stopping result) n h e = h
turn_at-has_succeeded (finished result) n h e = ap has_succeeded e ∙ h

signal_handler-phase : (n : Nodewrap) (signum : ℕ) → (signal_handler n signum).phase ≡ n.phase
unfolding signal_handler stop
signal_handler-phase n signum = elim (Bool-cases (signum == sigsegv)) [
  | inl b ↦ rw b
  | inr b ↦ rw b
]

on_delivery-phase :
    (d : Delivery) (n : Nodewrap) (signum : ℕ) → (on_delivery d n signum).phase ≡ n.phase
on_delivery-phase system_action n signum = refl
on_delivery-phase (calls hs) n signum = elim (Bool-cases (has_type n.handler hs)) [
  | inl b ↦ rw b (signal_handler-phase n signum)
  | inr b ↦ rw b
]

on_signal-phase : (n : Nodewrap) (signum : ℕ) → (on_signal n signum).phase ≡ n.phase
unfolding on_signal
on_signal-phase n signum = elim (Bool-cases n.signal_handler_installed) [
  | inl b ↦ simp b (on_delivery-phase (deliver n.signals signum) n signum)
  | inr b ↦ simp b
]

live_step-has_succeeded :
    (n : Nodewrap) (o : Op) (os : List Op)
    → inits (o ∷ os) ≡ true
    → has_succeeded n.phase ≡ true
    → has_succeeded (live_step n o).0.phase ≡ true
unfolding stop
live_step-has_succeeded n (turns true) os i h = turn_at-has_succeeded n.phase n h refl
live_step-has_succeeded n stops os i h = h
live_step-has_succeeded n (gets signum) os i h = ap has_succeeded (on_signal-phase n signum) ∙ h
live_step-has_succeeded n (turns false) os i h = cc

step-has_succeeded :
    (n : Nodewrap) (o : Op) (os : List Op)
    → inits (o ∷ os) ≡ true
    → has_succeeded n.phase ≡ true
    → has_succeeded (step n o).0.phase ≡ true
unfolding step
step-has_succeeded n o os i h = elim (Bool-cases n.killed) [
  | inl k ↦ simp k h
  | inr k ↦ simp k (live_step-has_succeeded n o os i h)
]

inits-tail : (o : Op) (os : List Op) → inits (o ∷ os) ≡ true → inits os ≡ true
inits-tail (turns true) os i = i
inits-tail (turns false) os i = cc
inits-tail stops os i = i
inits-tail (gets signum) os i = i

execute-has_succeeded :
    (n : Nodewrap) (os : List Op)
    → inits os ≡ true
    → has_succeeded n.phase ≡ true
    → has_succeeded (execute n os).0.phase ≡ true
unfolding execute
execute-has_succeeded n [] i h = h
execute-has_succeeded n (o ∷ os) i h =
    execute-has_succeeded (step n o).0 os (inits-tail o os i) (step-has_succeeded n o os i h)

main-has_succeeded :
    (p : Phase) (status : ℤ) → has_succeeded p ≡ true → main p ≡ some status → status ≡ pos 0
main-has_succeeded (finished true) status h e = cc
main-has_succeeded (finished false) status h e = cc
main-has_succeeded created status h e = cc
main-has_succeeded initializing status h e = cc
main-has_succeeded waiting status h e = cc
main-has_succeeded (cleaning result) status h e = cc
main-has_succeeded (stopping result) status h e = cc

-- Whatever turns are taken, and calls of `stop` and signals come between, `main` returns 0 if it
-- returns.
exit_lem :
    (handler : Handler) (installed : Bool) (signals : Signals) (os : List Op) (status : ℤ)
    → inits os ≡ true
    → main (execute (construct handler installed signals) os).0.phase ≡ some status
    → status ≡ pos 0
unfolding construct
exit_lem handler installed signals os status i e =
    main-has_succeeded (execute (construct handler installed signals) os).0.phase status
      (execute-has_succeeded (construct handler installed signals) os i refl) e

-- It does so after a call of `stop` and three turns, from where the thread waits in a process that no
-- signal has ended.
ends :
    (n : Nodewrap)
    → n.phase ≡ waiting
    → n.killed ≡ false
    → main (execute n (stops ∷ turns true ∷ turns true ∷ turns true ∷ [])).0.phase ≡ some (pos 0)
unfolding execute step stop turn_at begin_cleanup end_cleanup
ends n w k = simp (k, w)
