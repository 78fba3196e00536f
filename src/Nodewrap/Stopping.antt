-- ===== src/Nodewrap/Stopping.antt =====
-- When `stop`, called directly or by a signal, ends `execute`.
use any_node.Base.{
  ℕ, ◌≡◌, refl, sym, ◌∙◌, ap, subst, arith, ◌==◌, Bool, true, false, if◌then◌else◌, List, [], ◌∷◌,
}
use any_node.Signal.{Handler, initial, has_type, bind_all, deliver, calls, all_signals}
use any_node.Signal.Refinement.{spec_run, spec_deliver}
use any_node.Signal.All.{mem, deliver-unbind_all-bind_all}
use any_node.Signal.Refinement as Signal
use any_node.Nodewrap.Defs.{
  Nodewrap, Phase, created, initializing, waiting, cleaning, stopping, finished, pre_cleanup,
  stop_all_workers, stop_spinner, cleanup_node, construct, end_init, begin_cleanup, end_cleanup,
  turn_at, stop, signal_handler, on_delivery, on_signal, Op, turns, stops, sigsegv, step, execute,
}
use any_node.Nodewrap.Lifecycle.{execute-Follows, signals_in}

abbrev pub is_bound : Phase → Bool
is_bound initializing = true
is_bound waiting = true
is_bound _ = false

bound_signals :
    (p : Phase) (h : Handler) → is_bound p ≡ true → signals_in p initial h true ≡ bind_all initial h
bound_signals initializing h e = refl
bound_signals waiting h e = refl
bound_signals created h e = cc
bound_signals (cleaning result) h e = cc
bound_signals (stopping result) h e = cc
bound_signals (finished result) h e = cc

not_sigsegv : (t : ℕ) → mem t all_signals ≡ true → (t == sigsegv) ≡ false
not_sigsegv t m = ground arith

delivered :
    (h : Handler) (t : ℕ)
    → mem t all_signals ≡ true
    → deliver (bind_all initial h) t ≡ calls (h ∷ [])
unfolding Signal.run spec_run has_type
delivered h t m =
    (deliver-unbind_all-bind_all [] h t (λ u. refl)).0
    ∙ ap (λ b. spec_deliver (if b then h ∷ [] else [])) m

bound_stop :
    (q : Nodewrap) (h : Handler) (t : ℕ)
    → q.handler ≡ h
    → q.signal_handler_installed ≡ true
    → q.signals ≡ bind_all initial h
    → mem t all_signals ≡ true
    → on_signal q t ≡ stop q
unfolding on_signal signal_handler has_type
bound_stop q h t e f g m =
    let d : deliver q.signals t ≡ calls (h ∷ []) = ap (λ s. deliver s t) g ∙ delivered h t m in
    ap (λ b. if b then on_delivery (deliver q.signals t) q t else q) f
    ∙ ap (λ x. on_delivery x q t) d
    ∙ ground (arith, not_sigsegv t m, ap (λ x. x.type_name) e)

-- From the node's `init` on and until `run` returns, each signal of `bindAll` is a call of `stop`,
-- if no other handler was bound.
pub on_signal-stop :
    (h : Handler) (os : List Op) (t : ℕ)
    → is_bound (execute (construct h true initial) os).0.phase ≡ true
    → mem t all_signals ≡ true
    → let q = (execute (construct h true initial) os).0 in on_signal q t ≡ stop q
unfolding construct
on_signal-stop h os t p m =
    let k = execute-Follows os initial (construct h true initial) in
    let q = (execute (construct h true initial) os).0 in
    bound_stop q h t k.handler k.installed (k.signals refl ∙ bound_signals q.phase h p) m

abbrev pub quiet_turns : List Bool → List Op
quiet_turns [] = []
quiet_turns (b ∷ bs) = turns b ∷ quiet_turns bs

abbrev StopEnds : Bool → Bool → Bool → Nodewrap → Type 0
StopEnds a b c n =
    let r = execute n (stops ∷ turns a ∷ turns b ∷ turns c ∷ []) in
    (r.0.phase ≡ finished true)
    × (r.1 ≡ pre_cleanup ∷ stop_all_workers ∷ stop_spinner ∷ cleanup_node ∷ [])

-- A `stop` while `run` waits: three turns later the node is cleaned up and `execute` is finished.
pub stop_ends :
    (n : Nodewrap) (a b c : Bool)
    → n.phase ≡ waiting
    → n.killed ≡ false
    → let r = execute n (stops ∷ turns a ∷ turns b ∷ turns c ∷ []) in
      (r.0.phase ≡ finished true)
      × (r.1 ≡ pre_cleanup ∷ stop_all_workers ∷ stop_spinner ∷ cleanup_node ∷ [])
unfolding execute step turn_at stop begin_cleanup end_cleanup
stop_ends n a b c p k =
    subst (StopEnds a b c) (λ i. record n { phase = sym p i; killed = sym k i }) (refl, refl)

stays :
    (bs : List Bool) (n : Nodewrap)
    → let q =
        (execute
          (record n { phase = waiting; running = true; killed = false })
          (quiet_turns bs)).0 in
      (q.phase ≡ waiting) × (q.running ≡ true)
unfolding execute step turn_at
stays [] n = (refl, refl)
stays (b ∷ bs) n = stays bs n

abbrev StopLost : List Bool → Nodewrap → Type 0
StopLost bs n =
    let q = (execute n (stops ∷ turns true ∷ quiet_turns bs)).0 in
    (q.phase ≡ waiting) × (q.running ≡ true)

-- A `stop` while the node is in `init` is lost if that succeeds: `run` waits, however many turns it
-- takes.
pub stop_lost :
    (n : Nodewrap) (bs : List Bool)
    → n.phase ≡ initializing
    → n.killed ≡ false
    → let q = (execute n (stops ∷ turns true ∷ quiet_turns bs)).0 in
      (q.phase ≡ waiting) × (q.running ≡ true)
unfolding execute step turn_at stop end_init
stop_lost n bs p k =
    subst (StopLost bs) (λ i. record n { phase = sym p i; killed = sym k i }) (stays bs n)
