-- ===== src/Signal/All.antt =====
-- `bindAll`, and `unbindAll` after it.
use any_node.Base.{
  ℕ, ◌≡◌, refl, sym, ◌∙◌, subst, arith, ◌==◌, Bool, true, false, ◌||◌, if◌then◌else◌, List, [], ◌∷◌,
  ◌++◌,
}
use any_node.Base.Dict.{find}
use any_node.Signal.Defs.{
  Handler, Signals, initial, has_type, remove_type, bind, unbind, bind_each, unbind_each, bind_all,
  unbind_all, all_signals, deliver,
}
use any_node.Signal.Refinement.{
  Bound, add, update, Holds, Refines, bind-Holds, unbind-Holds, remove_type-absent, spec_deliver,
  deliver_lem, Op, run, spec_run, run-Refines,
}

abbrev pub mem : ℕ → List ℕ → Bool
mem t [] = false
mem t (n ∷ ns) = n == t || mem t ns

has_type-add : (h : Handler) (hs : List Handler) → has_type h (hs ++ h ∷ []) ≡ true
unfolding has_type
has_type-add h [] = ground arith
has_type-add h (x ∷ hs) = ground (arith, has_type-add h hs)

remove_type-add :
    (h : Handler) (hs : List Handler) → has_type h hs ≡ false → remove_type h (hs ++ h ∷ []) ≡ hs
unfolding has_type remove_type
remove_type-add h [] e = ground arith
remove_type-add h (x ∷ hs) e = ground (arith, remove_type-add h hs)

bind_each-Refines :
    (ns : List ℕ) (s : Signals) (f : Bound) (h : Handler)
    → Refines s f
    → Refines (bind_each s ns h) (λ t. if mem t ns then add h (f t) else f t)
unfolding bind_each
bind_each-Refines [] s f h r t = r t
bind_each-Refines (n ∷ ns) s f h r t =
    subst (Holds (bind_each (bind s n h) ns h) t) (ground (arith, has_type-add h (f t))) (
      bind_each-Refines ns (bind s n h) (update f n (add h (f n))) h
        (λ u. bind-Holds s n u h (f n) (f u) (r n) (r u)) t)

unbind_each-Refines :
    (ns : List ℕ) (s : Signals) (f g : Bound) (h : Handler)
    → ((t : ℕ) → has_type h (g t) ≡ false)
    → ((t : ℕ) → (remove_type h (f t) ≡ g t))
    → Refines s f
    → Refines (unbind_each s ns h) (λ t. if mem t ns then g t else f t)
unfolding unbind_each
unbind_each-Refines [] s f g h out k r t = r t
unbind_each-Refines (n ∷ ns) s f g h out k r t =
    let k' : (u : ℕ) → remove_type h (update f n (remove_type h (f n)) u) ≡ g u =
      λ u. ground (arith, k u, k n, out u, remove_type-absent h (g u)) in
    subst (Holds (unbind_each (unbind s n h) ns h) t) (ground (arith, k t)) (
      unbind_each-Refines ns (unbind s n h) (update f n (remove_type h (f n))) g h out k'
        (λ u. unbind-Holds s n u h (f n) (f u) (r n) (r u)) t)

module _ (ns : List ℕ) (s : Signals) (f : Bound) (r : Refines s f) (h : Handler)
    (new : (u : ℕ) → has_type h (f u) ≡ false) (t : ℕ) where
  added : Bound
  added u = if mem u ns then add h (f u) else f u

  remove_type-added : (u : ℕ) → remove_type h (added u) ≡ f u
  unfolding added
  remove_type-added u = ground (arith, new u, remove_type-add h (f u), remove_type-absent h (f u))

  deliver-bind_each :
      deliver (bind_each s ns h) t ≡ spec_deliver (if mem t ns then f t ++ h ∷ [] else f t)
  deliver-bind_each =
      deliver_lem (bind_each s ns h) t (if mem t ns then f t ++ h ∷ [] else f t) (
        subst (Holds (bind_each s ns h) t) (ground (arith, new t)) (bind_each-Refines ns s f h r t))

  deliver-unbind_each : deliver (unbind_each (bind_each s ns h) ns h) t ≡ deliver s t
  unfolding added
  deliver-unbind_each =
      let q = bind_each s ns h in
      let u =
        unbind_each-Refines ns q added f h new remove_type-added (bind_each-Refines ns s f h r) t in
      deliver_lem (unbind_each q ns h) t (f t)
        (subst (Holds (unbind_each q ns h) t) (ground arith) u)
      ∙ sym (deliver_lem s t (f t) (r t))

-- After any calls of `bind` and of `unbind` with a handler: `bindAll` adds the handler to each of
-- its signals, and `unbindAll` after it undoes that for all signals, if no handler of the same type
-- was bound before.
pub deliver-unbind_all-bind_all :
    (os : List Op) (h : Handler) (t : ℕ)
    → ((u : ℕ) → has_type h (spec_run (λ _. []) os u) ≡ false)
    → let s = run initial os in
      (deliver (bind_all s h) t
        ≡ spec_deliver (
            if mem t all_signals
            then spec_run (λ _. []) os t ++ h ∷ []
            else spec_run (λ _. []) os t))
      × (deliver (unbind_all (bind_all s h) h) t ≡ deliver s t)
unfolding bind_all unbind_all find
deliver-unbind_all-bind_all os h t new =
    let s = run initial os in
    let f = spec_run (λ _. []) os in
    let r = run-Refines os initial (λ _. []) (λ u. (refl, refl)) in
    (deliver-bind_each all_signals s f r h new t, deliver-unbind_each all_signals s f r h new t)
