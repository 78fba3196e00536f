-- ===== src/Nodewrap/Wait/Wakeup.antt =====
-- That `run` is woken once `stop` has been called.
use any_node.Base.{
  ℕ, ◌+◌, ◌≤◌, ◌≡◌, ◌≢◌, refl, sym, ap, arith, Bool, true, false, ◌⊎◌, inl, inr, none, List, [],
  ◌∷◌, ◌∙◌,
}
use any_node.Nodewrap.Wait.{
  Spot, entering, testing, asleep, ended, Stop, waiting, locked, stored, notified, System, main,
  start, update, Step, enters, sleeps, leaves, wakes, calls, locks, stores, notifies, returns,
  Reach, here, next, inside, in_run, holds,
}

-- A call of the thread has stored `running_` and is still to notify.
abbrev pub is_to_notify : List Stop → Bool
is_to_notify [] = false
is_to_notify (stored ∷ xs) = true
is_to_notify (_ ∷ xs) = is_to_notify xs

abbrev pub Owed : System → Type 0
Owed s = (s.woken ≡ true) ⊎ ((i : ℕ) × (is_to_notify (s.stops i) ≡ true))

pub record Inv (s : System) : Type 0 where
  pub exclusive : (i : ℕ) → inside (s.stops i) + in_run s.spot i ≡ holds s.holder i
  pub owed : s.spot ≡ asleep → s.running ≡ false → Owed s

Step-exclusive :
    {s q : System}
    → Step s q
    → ((i : ℕ) → inside (s.stops i) + in_run s.spot i ≡ holds s.holder i)
    → (j : ℕ) → inside (q.stops j) + in_run q.spot j ≡ holds q.holder j
Step-exclusive (enters e a h f) v j = ground (arith, v main, v j)
Step-exclusive (sleeps e a h f) v j = ground (arith, v main, v j)
Step-exclusive (leaves e a h f) v j = ground (arith, v main, v j)
Step-exclusive (wakes e a h f) v j = ground (arith, v main, v j)
Step-exclusive (calls i f) v j = ground (arith, v i, v j)
Step-exclusive (locks i xs e h f) v j = ground (arith, v i, v j, ap inside e)
Step-exclusive (stores i xs e f) v j = ground (arith, v i, v j, ap inside e)
Step-exclusive (notifies i xs e f) v j = ground (arith, v i, v j, ap inside e)
Step-exclusive (returns i xs e f) v j = ground (arith, v i, v j, ap inside e)

-- A thread's call that is to notify stays, where another's stack changes or its own keeps it.
kept :
    (f : ℕ → List Stop) (i : ℕ) (xs : List Stop) (j : ℕ)
    → is_to_notify (f i) ≡ is_to_notify xs
    → is_to_notify (f j) ≡ true
    → is_to_notify (update f i xs j) ≡ true
kept f i xs j h k = ground (arith, h, k)

Owed-kept :
    (s q : System) (i : ℕ) (xs : List Stop)
    → is_to_notify (s.stops i) ≡ is_to_notify xs
    → q.woken ≡ s.woken
    → q.stops ≡ update s.stops i xs
    → Owed s
    → Owed q
Owed-kept s q i xs h w u (inl k) = inl (w ∙ k)
Owed-kept s q i xs h w u (inr (j, k)) =
    inr (j, ap (λ f. is_to_notify (f j)) u ∙ kept s.stops i xs j h k)

abbrev IsOwed : System → Type 0
IsOwed s = s.spot ≡ asleep → s.running ≡ false → Owed s

Step-IsOwed : {s q : System} → Step s q → IsOwed s → IsOwed q
Step-IsOwed (enters e a h f) v x r = absurd (ground arith)
Step-IsOwed (sleeps e a h f) v x r = absurd (ground arith)
Step-IsOwed (leaves e a h f) v x r = absurd (ground arith)
Step-IsOwed (wakes e a h f) v x r = absurd (ground arith)
Step-IsOwed {s} {q} (calls i f) v x r =
    Owed-kept s q i (waiting ∷ s.stops i) refl (ap (λ y. y.woken) f) (ap (λ y. y.stops) f)
      (v (sym (ap (λ y. y.spot) f) ∙ x) (sym (ap (λ y. y.running) f) ∙ r))
Step-IsOwed {s} {q} (locks i xs e h f) v x r =
    Owed-kept s q i (locked ∷ xs) (ap is_to_notify e) (ap (λ y. y.woken) f) (ap (λ y. y.stops) f)
      (v (sym (ap (λ y. y.spot) f) ∙ x) (sym (ap (λ y. y.running) f) ∙ r))
Step-IsOwed {s} {q} (stores i xs e f) v x r = inr (i, ground arith)
Step-IsOwed {s} {q} (notifies i xs e f) v x r = inl (ap (λ y. y.woken) f)
Step-IsOwed {s} {q} (returns i xs e f) v x r =
    Owed-kept s q i xs (ap is_to_notify e) (ap (λ y. y.woken) f) (ap (λ y. y.stops) f)
      (v (sym (ap (λ y. y.spot) f) ∙ x) (sym (ap (λ y. y.running) f) ∙ r))

pub start-Inv : (running : Bool) → Inv (start running)
start-Inv running = record { exclusive = λ i. refl; owed = λ e. cc }

pub Step-Inv : {s q : System} → Step s q → Inv s → Inv q
Step-Inv st v = record { exclusive = Step-exclusive st v.exclusive; owed = Step-IsOwed st v.owed }

pub Reach-Inv : {s q : System} → Reach s q → Inv s → Inv q
Reach-Inv here v = v
Reach-Inv (next r st) v = Step-Inv st (Reach-Inv r v)

to_end :
    (p : Spot) (s : System)
    → s.spot ≡ p
    → Inv s
    → s.running ≡ false
    → s.holder ≡ none
    → s.stops main ≡ []
    → (q : System) × Reach s q × (q.spot ≡ ended)
to_end entering s e v r h a = (_, next (next here (enters e a h refl)) (leaves refl a r refl), refl)
to_end testing s e v r h a = absurd (ground (arith, v.exclusive main))
to_end asleep s e v r h a = (_, next (next here (wakes e a h refl)) (leaves refl a r refl), refl)
to_end ended s e v r h a = (s, here, e)

is_to_notify-inside : (xs : List Stop) → is_to_notify xs ≡ true → 1 ≤ inside xs
is_to_notify-inside [] h = cc
is_to_notify-inside (waiting ∷ xs) h = is_to_notify-inside xs h
is_to_notify-inside (locked ∷ xs) h = omega arith
is_to_notify-inside (stored ∷ xs) h = omega arith
is_to_notify-inside (notified ∷ xs) h = omega arith

woken_free : (s : System) → Inv s → s.holder ≡ none → Owed s → s.woken ≡ true
woken_free s v h (inl w) = w
woken_free s v h (inr (i, k)) =
    absurd (ground (arith, v.exclusive i, is_to_notify-inside (s.stops i) k))

asleep_cases :
    (p : Spot) (s : System)
    → s.spot ≡ p
    → Inv s
    → s.running ≡ false
    → s.holder ≡ none
    → (s.spot ≢ asleep) ⊎ (s.woken ≡ true)
asleep_cases asleep s e v r h = inr (woken_free s v h (v.owed e r))
asleep_cases entering s e v r h = inl (λ k. cc)
asleep_cases testing s e v r h = inl (λ k. cc)
asleep_cases ended s e v r h = inl (λ k. cc)

-- In every reachable state in which `running_` is false, no call has the mutex, and the thread that is
-- in `run` is in no call of `stop`: it has been notified if it sleeps, and there are steps that take it to
-- the end of `run`.
pub returns_lem :
    (running : Bool) (s : System)
    → Reach (start running) s
    → s.running ≡ false
    → s.holder ≡ none
    → s.stops main ≡ []
    → ((s.spot ≢ asleep) ⊎ (s.woken ≡ true)) × ((q : System) × Reach s q × (q.spot ≡ ended))
returns_lem running s u r h a =
    let v = Reach-Inv u (start-Inv running) in
    (asleep_cases s.spot s refl v r h, to_end s.spot s refl v r h a)
