-- ===== src/Subscriber/Throttle.antt =====
-- The distance between the calls of the user's function.
use any_node.Base.{
  ℕ, suc, ◌*◌, ◌≡◌, refl, ap, subst, true, List, [], ◌∷◌, length, map, Bool-cases, inl, inr,
}
use any_node.Base.Int.{ℤ, pos, ◌+ℤ◌, ◌≤ℤ◌, int_laws}
use any_node.Subscriber.Defs.{RosTime, Subscriber, internal_callback, receive}

-- ROS's arithmetic is that of the nanoseconds of its values: a difference that is at least a
-- duration puts the two points that far apart.
pub record IsExact {T Δ : Type 0} (r : RosTime T Δ) (nanos : T → ℤ) (span : Δ → ℤ) : Type 0 where
  pub apart : (a b : T) (x : Δ) → r.ge (r.sub a b) x ≡ true → nanos b +ℤ span x ≤ℤ nanos a

one_more :
    (a b c : ℤ) (n k : ℕ) → a +ℤ pos k ≤ℤ b → b +ℤ pos (n * k) ≤ℤ c → a +ℤ pos (suc n * k) ≤ℤ c
one_more a b c n k h l = omega int_laws

module _ {T Δ : Type 0} ⦃r : RosTime T Δ⦄ (nanos : T → ℤ) (span : Δ → ℤ) where
  -- However many messages come and whenever: if the user's function is called n times, the last of
  -- the calls is at least n time steps after the time that the subscriber had before. So it is
  -- called at most once for each time step.
  pub receive_lem {ℓ} :
      {M : Type ℓ} (s : Subscriber T Δ) (ms : List (T × M)) (k : ℕ)
      → IsExact r nanos span
      → span s.time_step ≡ pos k
      → let (q, called) = receive s ms in
        nanos s.last_time +ℤ pos (length called * k) ≤ℤ nanos q.last_time
  unfolding receive internal_callback
  receive_lem s [] k exact e = omega int_laws
  receive_lem s ((now, msg) ∷ ms) k exact e =
      elim (Bool-cases (r.ge (r.sub now s.last_time) s.time_step)) [
        | inl b ↦
            let step =
              subst (λ z. nanos s.last_time +ℤ z ≤ℤ nanos now) e
                (exact.apart now s.last_time s.time_step b) in
            let q : Subscriber T Δ = record s { last_time = now } in
            simp b (
              one_more (nanos s.last_time) (nanos now) (nanos (receive q ms).0.last_time)
                (length (receive q ms).1) k step (receive_lem q ms k exact e))
        | inr b ↦ simp b (receive_lem s ms k exact e)
      ]

module _ {T Δ : Type 0} ⦃r : RosTime T Δ⦄ where
  -- Each message comes at least a time step after the one before it, the first after `last`.
  abbrev pub AreApart {ℓ} : {M : Type ℓ} → Δ → T → List (T × M) → Type 0
  AreApart x last [] = Unit
  AreApart x last ((now, msg) ∷ ms) = (r.ge (r.sub now last) x ≡ true) × AreApart x now ms

  -- No message is dropped of those that come at least a time step apart: the user's function is
  -- called with all of them, in their order.
  receive_all {ℓ} :
      {M : Type ℓ} (s : Subscriber T Δ) (ms : List (T × M))
      → AreApart s.time_step s.last_time ms
      → (receive s ms).1 ≡ map (λ c. c.1) ms
  unfolding receive internal_callback
  receive_all s [] h = refl
  receive_all s ((now, msg) ∷ ms) h =
      simp h.0 (ap (◌∷◌ msg) (receive_all (record s { last_time = now }) ms h.1))
