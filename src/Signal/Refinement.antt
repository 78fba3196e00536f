-- ===== src/Signal/Refinement.antt =====
-- What the class promises while nobody calls the `unbind` that takes no handler: each signal has a
-- list of handlers, a signal with a handler calls them all, in the order in which they were bound,
-- and one without has the system's action.
use any_node.Base.{
  ℕ, ◌≡◌, refl, arith, ◌==◌, false, if◌then◌else◌, Option, none, some, List, [], ◌∷◌, ◌++◌,
}
use any_node.Base.Dict.{find, put, nat_eq, find-put, find-erase}
use any_node.Signal.Defs.{
  Handler, Disposition, default_action, signaled_function, Signals, initial, has_type, remove_type,
  enter, bind, leave, unbind_in, unbind, deliver, deliver_by, Delivery, system_action, calls,
}

-- The abstract state: the handlers of each signal, oldest first.
abbrev pub Bound : Type 0
Bound = ℕ → List Handler

abbrev pub add : Handler → List Handler → List Handler
add h hs = if has_type h hs then hs else hs ++ h ∷ []

abbrev pub update : Bound → ℕ → List Handler → Bound
update f sig hs t = if sig == t then hs else f t

pub data Op : Type 0 where
  binds unbinds : ℕ → Handler → Op

pub step : Signals → Op → Signals
step s (binds sig h) = bind s sig h
step s (unbinds sig h) = unbind s sig h

unfoldable pub spec_step : Bound → Op → Bound
spec_step f (binds sig h) = update f sig (add h (f sig))
spec_step f (unbinds sig h) = update f sig (remove_type h (f sig))

unfoldable pub run : Signals → List Op → Signals
run s [] = s
run s (o ∷ os) = run (step s o) os

unfoldable pub spec_run : Bound → List Op → Bound
spec_run f [] = f
spec_run f (o ∷ os) = spec_run (spec_step f o) os

abbrev pub spec_deliver : List Handler → Delivery
spec_deliver [] = system_action
spec_deliver (h ∷ hs) = calls (h ∷ hs)

abbrev pub entry_of : List Handler → Option (List Handler)
entry_of [] = none
entry_of (h ∷ hs) = some (h ∷ hs)

abbrev pub installed : List Handler → Disposition
installed [] = default_action
installed (h ∷ hs) = signaled_function

abbrev pub Holds : Signals → ℕ → List Handler → Type 0
Holds s t hs = (find t s.handlers ≡ entry_of hs) × (s.disposition t ≡ installed hs)

abbrev pub Refines : Signals → Bound → Type 0
Refines s f = (t : ℕ) → Holds s t (f t)

pub bind-Holds :
    (s : Signals) (sig t : ℕ) (h : Handler) (hs gs : List Handler)
    → Holds s sig hs
    → Holds s t gs
    → Holds (bind s sig h) t (if sig == t then add h hs else gs)
unfolding bind has_type
bind-Holds s sig t h [] gs (e, i) k =
    rw (e, enter)
      (ground
        (arith, k, find-put t sig (h ∷ []) (put sig [] s.handlers), find-put t sig [] s.handlers))
bind-Holds s sig t h (g ∷ hs) gs (e, i) k =
    rw (e, enter) (ground (arith, k, i, e, find-put t sig (g ∷ (hs ++ h ∷ [])) s.handlers))

pub remove_type-absent :
    (h : Handler) (hs : List Handler) → has_type h hs ≡ false → remove_type h hs ≡ hs
unfolding has_type remove_type
remove_type-absent h [] e = refl
remove_type-absent h (g ∷ hs) e = ground (arith, remove_type-absent h hs)

leave-Holds :
    (s : Signals) (sig t : ℕ) (h g : Handler) (hs rest gs : List Handler)
    → remove_type h (g ∷ hs) ≡ rest
    → Holds s sig (g ∷ hs)
    → Holds s t gs
    → Holds (if has_type h (g ∷ hs) then leave s sig rest else s) t (if sig == t then rest else gs)
leave-Holds s sig t h g hs [] gs e (f, i) k =
    ground (arith, k, f, i, remove_type-absent h (g ∷ hs), find-erase t sig s.handlers)
leave-Holds s sig t h g hs (r ∷ rs) gs e (f, i) k =
    ground (arith, k, f, i, remove_type-absent h (g ∷ hs), find-put t sig (r ∷ rs) s.handlers)

pub unbind-Holds :
    (s : Signals) (sig t : ℕ) (h : Handler) (hs gs : List Handler)
    → Holds s sig hs
    → Holds s t gs
    → Holds (unbind s sig h) t (if sig == t then remove_type h hs else gs)
unfolding unbind remove_type
unbind-Holds s sig t h [] gs (e, i) k = rw (e, unbind_in) (ground (arith, k, e, i))
unbind-Holds s sig t h (g ∷ hs) gs (e, i) k =
    rw (e, unbind_in) (leave-Holds s sig t h g hs (remove_type h (g ∷ hs)) gs refl (e, i) k)

step-Refines : (s : Signals) (f : Bound) (o : Op) → Refines s f → Refines (step s o) (spec_step f o)
unfolding step spec_step
step-Refines s f (binds sig h) r t = bind-Holds s sig t h (f sig) (f t) (r sig) (r t)
step-Refines s f (unbinds sig h) r t = unbind-Holds s sig t h (f sig) (f t) (r sig) (r t)

pub run-Refines :
    (os : List Op) (s : Signals) (f : Bound) → Refines s f → Refines (run s os) (spec_run f os)
unfolding run spec_run
run-Refines [] s f r = r
run-Refines (o ∷ os) s f r = run-Refines os (step s o) (spec_step f o) (step-Refines s f o r)

pub deliver_lem :
    (s : Signals) (t : ℕ) (hs : List Handler) → Holds s t hs → deliver s t ≡ spec_deliver hs
unfolding deliver
deliver_lem s t [] (e, i) = rw (i, deliver_by)
deliver_lem s t (h ∷ hs) (e, i) = rw (e, i)

-- After any calls of `bind` and of `unbind` with a handler, a signal calls the handlers that the
-- abstract state lists for it, in their order, and has the system's action if there is none.
pub deliver-run :
    (os : List Op) (t : ℕ) → deliver (run initial os) t ≡ spec_deliver (spec_run (λ _. []) os t)
unfolding find
deliver-run os t =
    deliver_lem (run initial os) t _ (run-Refines os initial (λ _. []) (λ u. (refl, refl)) t)
