-- ===== src/Signal/Faults.antt =====
-- Two ways in which a handler that was bound is not called.
use any_node.Base.{
  ℕ, ◌≡◌, refl, arith, true, Bool-cases, inl, inr, Option, none, some, List, [], ◌∷◌, ◌++◌,
}
use any_node.Base.Dict.{find, put, nat_eq, find-put_self}
use any_node.Signal.Defs.{
  Handler, default_action, Signals, has_type, same_type, enter, bind, clear_in, unbind_signal,
  deliver, signaled, system_action,
}

bind_empty :
    (s : Signals) (sig : ℕ) (h : Handler)
    → find sig s.handlers ≡ some []
    → s.disposition sig ≡ default_action
    → (deliver (bind s sig h) sig ≡ system_action) × (signaled (bind s sig h) sig ≡ h ∷ [])
unfolding bind deliver signaled has_type
bind_empty s sig h e i = rw (e, enter) (ground (arith, i, find-put_self sig (h ∷ []) s.handlers))

unbind_signal_lem :
    (s : Signals) (sig : ℕ) (hs : List Handler)
    → find sig s.handlers ≡ some hs
    → (find sig (unbind_signal s sig).handlers ≡ some [])
      × ((unbind_signal s sig).disposition sig ≡ default_action)
unfolding unbind_signal
unbind_signal_lem s sig hs e = rw (e, clear_in) (find-put_self sig [] s.handlers, ground arith)

-- After `unbind(sig)` of a signal that had an entry, `bind` puts its handler into the list of the
-- signal but does not install the function that would call it: the signal keeps its default action.
pub deliver-bind-unbind_signal :
    (s : Signals) (sig : ℕ) (h : Handler) (hs : List Handler)
    → find sig s.handlers ≡ some hs
    → let t = bind (unbind_signal s sig) sig h in
      (deliver t sig ≡ system_action) × (signaled t sig ≡ h ∷ [])
deliver-bind-unbind_signal s sig h hs e =
    let (empty, off) = unbind_signal_lem s sig hs e in
    bind_empty (unbind_signal s sig) sig h empty off

has_type-append :
    (g h : Handler) (hs : List Handler) → same_type g h ≡ true → has_type h (hs ++ g ∷ []) ≡ true
unfolding has_type
has_type-append g h [] e = ground arith
has_type-append g h (x ∷ hs) e = ground (arith, has_type-append g h hs e)

has_type-same :
    (g h : Handler) (hs : List Handler)
    → same_type g h ≡ true
    → has_type g hs ≡ true
    → has_type h hs ≡ true
unfolding has_type
has_type-same g h [] e k = k
has_type-same g h (x ∷ hs) e k = ground (arith, has_type-same g h hs)

bind_present :
    (s : Signals) (sig : ℕ) (h : Handler) (hs : List Handler)
    → find sig s.handlers ≡ some hs
    → has_type h hs ≡ true
    → bind s sig h ≡ s
unfolding bind
bind_present s sig h hs f k = rw (f, enter) (rw k)

abbrev HasBound : Signals → ℕ → Handler → Type 0
HasBound s sig h = (hs : List Handler) × (find sig s.handlers ≡ some hs) × (has_type h hs ≡ true)

bind-HasBound :
    (s : Signals) (sig : ℕ) (g h : Handler) (o : Option (List Handler))
    → same_type g h ≡ true
    → find sig s.handlers ≡ o
    → HasBound (bind s sig g) sig h
unfolding bind has_type
bind-HasBound s sig g h none e f =
    rw (f, enter) (g ∷ [], find-put_self sig (g ∷ []) (put sig [] s.handlers), ground arith)
bind-HasBound s sig g h (some hs) e f = elim (Bool-cases (has_type g hs)) [
  | inl k ↦ rw (f, enter, k) (hs, f, has_type-same g h hs e k)
  | inr k ↦
      rw (f, enter, k)
        (hs ++ g ∷ [], find-put_self sig (hs ++ g ∷ []) s.handlers, has_type-append g h hs e)
]

-- A handler is not bound if one whose function has the same type is: member functions of one class,
-- on whichever object, have one type, so that of two objects only the first is bound.
bind-bind-same_type :
    (s : Signals) (sig : ℕ) (g h : Handler)
    → same_type g h ≡ true
    → bind (bind s sig g) sig h ≡ bind s sig g
bind-bind-same_type s sig g h e =
    let (hs, f, k) = bind-HasBound s sig g h (find sig s.handlers) e refl in
    bind_present (bind s sig g) sig h hs f k
