-- ===== src/Nodewrap/Lifecycle.antt =====
-- The phases of `execute`: what is called and in which order, and which signals are bound.
use any_node.Base.{
  ℕ, ◌≡◌, refl, sym, ◌∙◌, ap, arith, Bool, true, false, List, [], ◌∷◌, ◌++◌, append-nil,
  append_assoc, Bool-cases, inl, inr,
}
use any_node.Signal.{
  Signals, Handler, bind_all, unbind_all, deliver, Delivery, system_action, calls,
}
use any_node.Signal.Refinement.{spec_deliver}
use any_node.Signal.Refinement as Signal
use any_node.Nodewrap.Defs.{
  Nodewrap, Phase, created, initializing, waiting, cleaning, stopping, finished, Effect,
  start_spinner, init_node, pre_cleanup, stop_all_workers, stop_spinner, cleanup_node, construct,
  begin_init, end_init, begin_cleanup, end_cleanup, turn_at, stop, signal_handler, on_delivery,
  on_signal, Op, turns, stops, gets, live_step, step, execute,
}

-- All that was called before the phase.
abbrev pub effects_before : Phase → List Effect
effects_before created = []
effects_before (finished result) =
    start_spinner ∷ init_node ∷ pre_cleanup ∷ stop_all_workers ∷ stop_spinner ∷ cleanup_node ∷ []
effects_before (stopping result) = start_spinner ∷ init_node ∷ pre_cleanup ∷ []
effects_before _ = start_spinner ∷ init_node ∷ []

-- The handlers in the phase.
abbrev pub signals_in : Phase → Signals → Handler → Bool → Signals
signals_in phase s h false = s
signals_in created s h true = s
signals_in (stopping result) s h true = unbind_all (bind_all s h) h
signals_in (finished result) s h true = unbind_all (bind_all s h) h
signals_in _ s h true = bind_all s h

-- What a step from `n` to `m` with the effects `es` keeps.
pub record Follows (s : Signals) (n : Nodewrap) (r : Nodewrap × List Effect) : Type 0 where
  pub handler : r.0.handler ≡ n.handler
  pub installed : r.0.signal_handler_installed ≡ n.signal_handler_installed
  pub called : effects_before n.phase ++ r.1 ≡ effects_before r.0.phase
  pub signals :
      n.signals ≡ signals_in n.phase s n.handler n.signal_handler_installed
      → r.0.signals ≡ signals_in r.0.phase s n.handler n.signal_handler_installed

same_phase :
    (s : Signals) (n m : Nodewrap)
    → m.handler ≡ n.handler
    → m.signal_handler_installed ≡ n.signal_handler_installed
    → m.phase ≡ n.phase
    → m.signals ≡ n.signals
    → Follows s n (m, [])
same_phase s n m a b c d = record {
  handler = a;
  installed = b;
  called = append-nil (effects_before n.phase) ∙ ap effects_before (sym c);
  signals = λ h. d ∙ h ∙ ap (λ p. signals_in p s n.handler n.signal_handler_installed) (sym c);
}

-- A step that keeps the object's handler.
moves :
    (s : Signals) (n m : Nodewrap) (es : List Effect)
    → m.handler ≡ n.handler
    → m.signal_handler_installed ≡ n.signal_handler_installed
    → effects_before n.phase ++ es ≡ effects_before m.phase
    → (n.signals ≡ signals_in n.phase s n.handler n.signal_handler_installed
        → m.signals ≡ signals_in m.phase s n.handler n.signal_handler_installed)
    → Follows s n (m, es)
moves s n m es h i c f = record { handler = h; installed = i; called = c; signals = f }

abbrev placed : Phase → Bool → Bool → Nodewrap → Nodewrap
placed p b r n = record n { phase = p; signal_handler_installed = b; running = r }

turn_at-Follows :
    (p : Phase) (b r : Bool) (s : Signals) (n : Nodewrap) (ok : Bool)
    → Follows s (placed p b r n) (turn_at p (placed p b r n) ok)
unfolding turn_at begin_init end_init begin_cleanup end_cleanup
turn_at-Follows created true r s n ok =
    moves s _ _ _ refl refl refl (λ h. ap (λ x. bind_all x n.handler) h)
turn_at-Follows created false r s n ok = moves s _ _ _ refl refl refl (λ h. h)
turn_at-Follows initializing true r s n true = moves s _ _ _ refl refl refl (λ h. h)
turn_at-Follows initializing true r s n false = moves s _ _ _ refl refl refl (λ h. h)
turn_at-Follows initializing false r s n true = moves s _ _ _ refl refl refl (λ h. h)
turn_at-Follows initializing false r s n false = moves s _ _ _ refl refl refl (λ h. h)
turn_at-Follows waiting true true s n ok = same_phase s _ _ refl refl refl refl
turn_at-Follows waiting false true s n ok = same_phase s _ _ refl refl refl refl
turn_at-Follows waiting true false s n ok = moves s _ _ _ refl refl refl (λ h. h)
turn_at-Follows waiting false false s n ok = moves s _ _ _ refl refl refl (λ h. h)
turn_at-Follows (cleaning result) true r s n ok =
    moves s _ _ _ refl refl refl (λ h. ap (λ x. unbind_all x n.handler) h)
turn_at-Follows (cleaning result) false r s n ok = moves s _ _ _ refl refl refl (λ h. h)
turn_at-Follows (stopping result) true r s n ok = moves s _ _ _ refl refl refl (λ h. h)
turn_at-Follows (stopping result) false r s n ok = moves s _ _ _ refl refl refl (λ h. h)
turn_at-Follows (finished result) b r s n ok = same_phase s _ _ refl refl refl refl

signal-Follows :
    (d : Delivery) (s : Signals) (n : Nodewrap) (t : ℕ) → Follows s n (on_delivery d n t, [])
unfolding signal_handler stop
signal-Follows system_action s n t = same_phase s n _ refl refl refl refl
signal-Follows (calls hs) s n t =
    same_phase s n _ (ground arith) (ground arith) (ground arith) (ground arith)

live_step-Follows : (s : Signals) (n : Nodewrap) (o : Op) → Follows s n (live_step n o)
unfolding stop on_signal
live_step-Follows s n (turns ok) =
    turn_at-Follows n.phase n.signal_handler_installed n.running s n ok
live_step-Follows s n stops = same_phase s n _ refl refl refl refl
live_step-Follows s n (gets t) = elim (Bool-cases n.signal_handler_installed) [
  | inl b ↦ simp b (signal-Follows (deliver n.signals t) s n t)
  | inr b ↦ simp b (same_phase s n n refl refl refl refl)
]

step-Follows : (s : Signals) (n : Nodewrap) (o : Op) → Follows s n (step n o)
unfolding step
step-Follows s n o = elim (Bool-cases n.killed) [
  | inl b ↦ simp b (same_phase s n n refl refl refl refl)
  | inr b ↦ simp b (live_step-Follows s n o)
]

then-Follows :
    (s : Signals) (n m : Nodewrap) (es : List Effect) (r : Nodewrap × List Effect)
    → Follows s n (m, es)
    → Follows s m r
    → Follows s n (r.0, es ++ r.1)
then-Follows s n m es r h k = record {
  handler = k.handler ∙ h.handler;
  installed = k.installed ∙ h.installed;
  called =
      sym (append_assoc (effects_before n.phase) es r.1) ∙ ap (λ x. x ++ r.1) h.called ∙ k.called;
  signals = λ e. k.signals (h.signals e ∙ sym (same m.phase)) ∙ same r.0.phase;
}
  where
    same :
        (p : Phase)
        → signals_in p s m.handler m.signal_handler_installed
          ≡ signals_in p s n.handler n.signal_handler_installed
    same p i = signals_in p s (h.handler i) (h.installed i)

pub execute-Follows : (os : List Op) (s : Signals) (n : Nodewrap) → Follows s n (execute n os)
unfolding execute
execute-Follows [] s n = same_phase s n n refl refl refl refl
execute-Follows (o ∷ os) s n =
    let r = step n o in
    then-Follows s n r.0 r.1 (execute r.0 os) (step-Follows s n o) (execute-Follows os s r.0)

-- Whatever signals and calls of `stop` come between: what `execute` has called is given by its
-- phase. Before it is finished that is at most the spinner's start and the node's `init`; then it
-- is `preCleanup`, the stop of all workers, that of the spinner and `cleanup` too, each once and in
-- this order, whether `init` succeeded or not.
pub execute_order :
    (h : Handler) (installed : Bool) (s : Signals) (os : List Op)
    → let r = execute (construct h installed s) os in r.1 ≡ effects_before r.0.phase
unfolding construct
execute_order h installed s os = (execute-Follows os s (construct h installed s)).called
