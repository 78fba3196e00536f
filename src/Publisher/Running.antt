-- ===== src/Publisher/Running.antt =====
-- That the thread of a publisher is there until its end is asked for.
use any_node.Base.{
  ◌≡◌, refl, subst, arith, true, false, Option, some, some_inj, List, [], ◌∷◌, length, inl, inr,
  Bool-cases, ◌==◌,
}
use any_node.Publisher.Defs.{
  Publisher, Spot, outside, looping, waiting, sending, popping, holding, ended, Event, accepted,
  is_ended, Op, adds, notifies, turns, grabs, delivers, grab, shuts_down, joins, turn, turn_at,
  step, add_message, replace_oldest, push, take, notify_thread, shutdown, joined,
}
use any_node.Publisher.Ending.{is_alive}

module _ {ℓ} {M : Type ℓ} where
  -- There is a thread, and it has not ended unless it was to.
  pub record IsRunning (s : Publisher M) : Type 0 where
    pub threaded : s.auto_publish ≡ true
    pub alive : is_alive s.spot ≡ true
    pub asked : is_ended s.spot ≡ true → s.shutdown_requested ≡ true

  take-IsRunning : (b : List M) (s : Publisher M) → IsRunning s → IsRunning (take b s).0
  take-IsRunning [] s v = ground (arith, v)
  take-IsRunning (m ∷ rest) s v = ground (arith, v)

  turn_at-IsRunning :
      (p : Spot M) (s : Publisher M) → s.spot ≡ p → IsRunning s → IsRunning (turn_at p s).0
  unfolding turn_at
  turn_at-IsRunning outside s e v = v
  turn_at-IsRunning looping s e v = ground (arith, v)
  turn_at-IsRunning waiting s e v = ground (arith, v)
  turn_at-IsRunning sending s e v = ground (arith, v)
  turn_at-IsRunning popping s e v = take-IsRunning s.buffer s v
  turn_at-IsRunning (holding m) s e v = ground (arith, v)
  turn_at-IsRunning ended s e v = v

  grab-IsRunning : (b : List M) (s : Publisher M) → IsRunning s → IsRunning (grab b s).0
  grab-IsRunning [] s v = v
  grab-IsRunning (m ∷ rest) s v = record { threaded = v.threaded; alive = v.alive; asked = v.asked }

  full-IsRunning :
      (b : List M) (s : Publisher M) (m : M) {q : Publisher M} {es : List (Event M)}
      → replace_oldest b s m ≡ some (q, es)
      → IsRunning s
      → IsRunning q
  full-IsRunning [] s m e v = cc
  full-IsRunning (oldest ∷ rest) s m e v =
      subst (λ (x : Publisher M × List (Event M)). IsRunning x.0) (some_inj _ _ e)
        record { threaded = v.threaded; alive = v.alive; asked = v.asked }

  pub step-IsRunning :
      (s : Publisher M) (o : Op M) (q : Publisher M) (es : List (Event M))
      → step s o ≡ some (q, es)
      → IsRunning s
      → IsRunning q
  unfolding step notify_thread turn shutdown joined add_message
  step-IsRunning s (adds m) q es e v = elim (Bool-cases (length s.buffer == s.max_size)) [
    | inl b ↦ full-IsRunning s.buffer s m (rw b at e) v
    | inr b ↦
        let free : ◌≡◌ {A = Option (Publisher M × List (Event M))}
            (some (push s s.buffer m, accepted m ∷ [])) (some (q, es)) =
          rw b at e in
        subst (λ (x : Publisher M × List (Event M)). IsRunning x.0) (some_inj _ _ free)
          record { threaded = v.threaded; alive = v.alive; asked = v.asked }
  ]
  step-IsRunning s notifies q es e v = ground (arith, v)
  step-IsRunning s turns q es e v =
      subst (λ (x : Publisher M × List (Event M)). IsRunning x.0) (some_inj _ _ e)
        (turn_at-IsRunning s.spot s refl v)
  step-IsRunning s grabs q es e v =
      subst (λ (x : Publisher M × List (Event M)). IsRunning x.0) (some_inj _ _ e)
        (grab-IsRunning s.buffer s v)
  step-IsRunning s (delivers n) q es e v =
      subst (λ (x : Publisher M × List (Event M)). IsRunning x.0) (some_inj _ _ e)
        record { threaded = v.threaded; alive = v.alive; asked = v.asked }
  step-IsRunning s shuts_down q es e v = ground (arith, v)
  step-IsRunning s joins q es e v = ground (arith, v)

  pub not_ended :
      (s : Publisher M) → IsRunning s → s.shutdown_requested ≡ false → is_ended s.spot ≡ false
  not_ended s v h = ground (arith, v)
