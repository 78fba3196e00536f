-- ===== src/Signal/Ledger.antt =====
-- What the calls of `bind` and of `unbind` with a handler leave for a signal, said without the class's
-- code: a list with at most one handler of each type, the oldest first.
use any_node.Base.{
  Bool-cases, inl, inr, ℕ, ◌≡◌, refl, sym, ap, ◌∙◌, subst, arith, ◌==◌, Bool, true, false,
  if◌then◌else◌, List, [], ◌∷◌, ◌++◌,
}
use any_node.Signal.Defs.{Handler, initial, has_type, remove_type, deliver}
use any_node.Signal.Refinement.{
  Op, binds, unbinds, run, spec_run, spec_step, spec_deliver, deliver-run, add,
}

abbrev pub mentions : ℕ → List Handler → Bool
mentions t [] = false
mentions t (g ∷ gs) = if g.type_name == t then true else mentions t gs

abbrev pub without : ℕ → List Handler → List Handler
without t [] = []
without t (g ∷ gs) = if g.type_name == t then without t gs else g ∷ without t gs

-- The handlers of the signal after one more call, and after all.
abbrev pub after : ℕ → Op → List Handler → List Handler
after sig (binds n h) hs =
    if n == sig then (if mentions h.type_name hs then hs else hs ++ h ∷ []) else hs
after sig (unbinds n h) hs = if n == sig then without h.type_name hs else hs

abbrev pub ledger_from : ℕ → List Handler → List Op → List Handler
ledger_from sig hs [] = hs
ledger_from sig hs (o ∷ os) = ledger_from sig (after sig o hs) os

abbrev pub ledger : ℕ → List Op → List Handler
ledger sig os = ledger_from sig [] os

-- No type twice.
abbrev IsUnique : List Handler → Type 0
IsUnique [] = Unit
IsUnique (g ∷ gs) = (mentions g.type_name gs ≡ false) × IsUnique gs

mentions_lem : (h : Handler) (hs : List Handler) → has_type h hs ≡ mentions h.type_name hs
unfolding has_type
mentions_lem h [] = refl
mentions_lem h (g ∷ gs) = ground (arith, mentions_lem h gs)

without_absent : (t : ℕ) (hs : List Handler) → mentions t hs ≡ false → without t hs ≡ hs
without_absent t [] e = refl
without_absent t (g ∷ gs) e = ground (arith, without_absent t gs)

without_lem :
    (h : Handler) (hs : List Handler) → IsUnique hs → remove_type h hs ≡ without h.type_name hs
unfolding remove_type
without_lem h [] u = refl
without_lem h (g ∷ gs) u = ground (arith, without_lem h gs u.1, without_absent h.type_name gs, u.0)

mentions-without :
    (t u : ℕ) (hs : List Handler) → mentions t hs ≡ false → mentions t (without u hs) ≡ false
mentions-without t u [] e = refl
mentions-without t u (g ∷ gs) e = ground (arith, mentions-without t u gs)

mentions-append :
    (t : ℕ) (hs : List Handler) (h : Handler)
    → mentions t (hs ++ h ∷ []) ≡ (if mentions t hs then true else h.type_name == t)
mentions-append t [] h = ground arith
mentions-append t (g ∷ gs) h = ground (arith, mentions-append t gs h)

append-IsUnique :
    (hs : List Handler) (h : Handler)
    → IsUnique hs
    → mentions h.type_name hs ≡ false
    → IsUnique (hs ++ h ∷ [])
append-IsUnique [] h u e = (refl, tt)
append-IsUnique (g ∷ gs) h u e =
    (ground (arith, mentions-append g.type_name gs h, u.0), append-IsUnique gs h u.1 (ground arith))

without-IsUnique : (t : ℕ) (hs : List Handler) → IsUnique hs → IsUnique (without t hs)
without-IsUnique t [] u = tt
without-IsUnique t (g ∷ gs) u =
    ground (arith, without-IsUnique t gs u.1, mentions-without g.type_name t gs u.0)

same : (n t : ℕ) → (n == t) ≡ true → n ≡ t
same n t e = ground arith

added :
    (h : Handler) (hs : List Handler)
    → IsUnique hs
    → IsUnique (if mentions h.type_name hs then hs else hs ++ h ∷ [])
added h hs u = elim (Bool-cases (mentions h.type_name hs)) [
  | inl e ↦ rw e u
  | inr e ↦ rw e (append-IsUnique hs h u e)
]

step_after :
    (f : ℕ → List Handler) (o : Op) (t : ℕ) → IsUnique (f t) → spec_step f o t ≡ after t o (f t)
unfolding spec_step
step_after f (binds n h) t u = elim (Bool-cases (n == t)) [
  | inl e ↦ rw e (
      ap (λ k. add h (f k)) (same n t e)
      ∙ ap (λ b. if b then f t else f t ++ h ∷ []) (mentions_lem h (f t)))
  | inr e ↦ rw e refl
]
step_after f (unbinds n h) t u = elim (Bool-cases (n == t)) [
  | inl e ↦ rw e (ap (λ k. remove_type h (f k)) (same n t e) ∙ without_lem h (f t) u)
  | inr e ↦ rw e refl
]

after-IsUnique : (t : ℕ) (o : Op) (hs : List Handler) → IsUnique hs → IsUnique (after t o hs)
after-IsUnique t (binds n h) hs u = elim (Bool-cases (n == t)) [
  | inl e ↦ rw e (added h hs u)
  | inr e ↦ rw e u
]
after-IsUnique t (unbinds n h) hs u = elim (Bool-cases (n == t)) [
  | inl e ↦ rw e (without-IsUnique h.type_name hs u)
  | inr e ↦ rw e u
]

run_ledger :
    (os : List Op) (f : ℕ → List Handler) (t : ℕ) (hs : List Handler)
    → f t ≡ hs
    → IsUnique hs
    → spec_run f os t ≡ ledger_from t hs os
unfolding spec_run
run_ledger [] f t hs e u = e
run_ledger (o ∷ os) f t hs e u =
    run_ledger os (spec_step f o) t (after t o hs)
      (step_after f o t (subst IsUnique (sym e) u) ∙ ap (after t o) e) (after-IsUnique t o hs u)

-- After any calls of `bind` and of `unbind` with a handler: a signal has the system's action if its
-- list is empty, and otherwise calls the handlers of the list, in its order. The list has got, at its
-- end, each handler that was bound while none of its type was there, and has lost those of the type of
-- each that was unbound.
pub deliver-ledger :
    (os : List Op) (t : ℕ) → deliver (run initial os) t ≡ spec_deliver (ledger t os)
deliver-ledger os t = deliver-run os t ∙ ap spec_deliver (run_ledger os (λ _. []) t [] refl tt)
