-- ===== src/Publisher/Wakeup.antt =====
-- That the thread is woken whenever there is something for it to do.
use any_node.Base.{
  ℕ, ◌≤◌, ◌≡◌, refl, ap, subst, arith, ◌==◌, ltb, Bool, true, false, ◌&&◌, ◌||◌, not, Option, some,
  some_inj, List, [], ◌∷◌, ◌++◌, length, Bool-cases, inl, inr,
}
use any_node.Publisher.Defs.{
  Publisher, Spot, outside, looping, waiting, sending, popping, holding, ended, Event, accepted, Op,
  adds, notifies, turns, grabs, delivers, grab, shuts_down, joins, construct, push, replace_oldest,
  add_message, notify_thread, take, turn_at, turn, shutdown, joined, step, run,
}
use any_node.Publisher.Induction.{run_keeps}

module _ {ℓ} {M : Type ℓ} where
  abbrev pub is_empty : List M → Bool
  is_empty [] = true
  is_empty (m ∷ ms) = false

  -- There is something for the thread to do that it will not find by itself: it is before the next
  -- wait, or in it.
  abbrev pub owes : Spot M → Publisher M → Bool
  owes waiting s = s.shutdown_requested || not (is_empty s.buffer)
  owes looping s = not s.shutdown_requested && not (is_empty s.buffer)
  owes _ s = false

  -- The notification is there, or on its way.
  abbrev pub woken : Publisher M → Bool
  woken s = s.notified || ltb 0 s.pending

  abbrev pub IsWoken : Publisher M → Type 0
  IsWoken s = (owes s.spot s ≡ true) → (woken s ≡ true)

  pending-IsWoken : (s : Publisher M) → 1 ≤ s.pending → IsWoken s
  pending-IsWoken s h = ground arith

  full-IsWoken :
      (b : List M) (s : Publisher M) (m : M) {q : Publisher M} {es : List (Event M)}
      → replace_oldest b s m ≡ some (q, es)
      → IsWoken q
  full-IsWoken [] s m e = cc
  full-IsWoken (oldest ∷ rest) s m e =
      subst (λ (x : Publisher M × List (Event M)). IsWoken x.0) (some_inj _ _ e)
        (pending-IsWoken (push s rest m) (omega arith))

  take-IsWoken : (b : List M) (s : Publisher M) → s.buffer ≡ b → IsWoken (take b s).0
  take-IsWoken [] s e = ground (arith, ap is_empty e)
  take-IsWoken (m ∷ rest) s e = ground arith

  turn_at-IsWoken :
      (p : Spot M) (s : Publisher M) → s.spot ≡ p → IsWoken s → IsWoken (turn_at p s).0
  unfolding turn_at
  turn_at-IsWoken outside s e h = h
  turn_at-IsWoken looping s e h = ground arith
  turn_at-IsWoken waiting s e h = ground arith
  turn_at-IsWoken sending s e h = ground (arith)
  turn_at-IsWoken popping s e h = take-IsWoken s.buffer s refl
  turn_at-IsWoken (holding m) s e h = ground arith
  turn_at-IsWoken ended s e h = h

  grab-IsWoken : (b : List M) (s : Publisher M) → s.buffer ≡ b → IsWoken s → IsWoken (grab b s).0
  grab-IsWoken [] s e h = h
  grab-IsWoken (m ∷ rest) s e h = grabbed-IsWoken s.spot s refl (ap is_empty e) h
    where
      grabbed-IsWoken :
          (p : Spot M) (s : Publisher M)
          → s.spot ≡ p
          → is_empty s.buffer ≡ false
          → IsWoken s
          → IsWoken (record s { buffer = rest; carried = s.carried ++ m ∷ [] })
      grabbed-IsWoken waiting s e f h = ground (arith, h)
      grabbed-IsWoken looping s e f h = ground (arith, h)
      grabbed-IsWoken outside s e f h = ground arith
      grabbed-IsWoken sending s e f h = ground arith
      grabbed-IsWoken popping s e f h = ground arith
      grabbed-IsWoken (holding n) s e f h = ground arith
      grabbed-IsWoken ended s e f h = ground arith

  carried-IsWoken :
      (p : Spot M) (s : Publisher M) (ms : List M)
      → s.spot ≡ p
      → IsWoken s
      → IsWoken (record s { carried = ms })
  carried-IsWoken waiting s ms e h = ground (arith, h)
  carried-IsWoken looping s ms e h = ground (arith, h)
  carried-IsWoken outside s ms e h = ground arith
  carried-IsWoken sending s ms e h = ground arith
  carried-IsWoken popping s ms e h = ground arith
  carried-IsWoken (holding n) s ms e h = ground arith
  carried-IsWoken ended s ms e h = ground arith

  step-IsWoken :
      (s : Publisher M) (o : Op M) (q : Publisher M) (es : List (Event M))
      → step s o ≡ some (q, es)
      → IsWoken s
      → IsWoken q
  unfolding step notify_thread turn shutdown joined add_message
  step-IsWoken s (adds m) q es e h = elim (Bool-cases (length s.buffer == s.max_size)) [
    | inl b ↦
        let full : replace_oldest s.buffer s m ≡ some (q, es) = rw b at e in
        full-IsWoken s.buffer s m full
    | inr b ↦
        let free : ◌≡◌ {A = Option (Publisher M × List (Event M))}
            (some (push s s.buffer m, accepted m ∷ [])) (some (q, es)) =
          rw b at e in
        subst (λ (x : Publisher M × List (Event M)). IsWoken x.0) (some_inj _ _ free)
          (pending-IsWoken (push s s.buffer m) (omega arith))
  ]
  step-IsWoken s notifies q es e h = ground arith
  step-IsWoken s turns q es e h =
      subst (λ (x : Publisher M × List (Event M)). IsWoken x.0) (some_inj _ _ e)
        (turn_at-IsWoken s.spot s refl h)
  step-IsWoken s grabs q es e h =
      subst (λ (x : Publisher M × List (Event M)). IsWoken x.0) (some_inj _ _ e)
        (grab-IsWoken s.buffer s refl h)
  step-IsWoken s (delivers n) q es e h =
      subst (λ (x : Publisher M × List (Event M)). IsWoken x.0) (some_inj _ _ e)
        (carried-IsWoken s.spot s _ refl h)
  step-IsWoken s shuts_down q es e h = ground arith
  step-IsWoken s joins q es e h = ground arith

  pub run-IsWoken :
      (os : List (Op M)) (s : Publisher M)
      → IsWoken s
      → (q : Publisher M) (es : List (Event M)) → run s os ≡ some (q, es)
      → IsWoken q
  run-IsWoken = run_keeps IsWoken step-IsWoken

  -- No wake-up is lost: after any interleaving, if the thread waits, and nobody is between adding a
  -- message or asking for the end and the notification, and no notification is there, then there
  -- is nothing to do: the buffer is empty, and the end was not asked for.
  pub asleep_lem :
      (max_size : ℕ) (os : List (Op M)) (q : Publisher M) (es : List (Event M))
      → run (construct max_size true) os ≡ some (q, es)
      → q.spot ≡ waiting
      → q.notified ≡ false
      → q.pending ≡ 0
      → (q.buffer ≡ []) × (q.shutdown_requested ≡ false)
  unfolding construct
  asleep_lem max_size os q es e w n z =
      asleep q (run-IsWoken os (construct max_size true) (ground arith) q es e) w n z q.buffer refl
    where
      asleep :
          (q : Publisher M)
          → IsWoken q
          → q.spot ≡ waiting
          → q.notified ≡ false
          → q.pending ≡ 0
          → (b : List M) → q.buffer ≡ b
          → (q.buffer ≡ []) × (q.shutdown_requested ≡ false)
      asleep q h w n z [] f = (f, ground (arith, ap is_empty f))
      asleep q h w n z (m ∷ b) f = absurd (ground (arith, ap is_empty f))
