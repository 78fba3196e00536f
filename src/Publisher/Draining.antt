-- ===== src/Publisher/Draining.antt =====
-- That the thread publishes all that is left in the buffer, once no more is added.
use any_node.Base.{
  append_assoc, ℕ, suc, ◌+◌, ◌*◌, ◌≤◌, ◌≡◌, refl, sym, ◌∙◌, ap, subst, arith, Bool, true, false,
  some, some_inj, List, [], ◌∷◌, ◌++◌, length,
}
use any_node.Publisher.Defs.{
  Publisher, Spot, outside, looping, waiting, sending, popping, holding, ended, Event, taken,
  published, is_ended, Op, construct, turn, turn_at, run,
}
use any_node.Publisher.Events.{taken_in, published_in, published_in-append}
use any_node.Publisher.Order.{held, run_lem}
use any_node.Publisher.Wakeup.{IsWoken, run-IsWoken}
use any_node.Publisher.Induction.{run_keeps}
use any_node.Publisher.Running.{IsRunning, step-IsRunning, not_ended}
use any_node.Publisher.Ending.{thread_turns, is_alive}

module _ {ℓ} {M : Type ℓ} where
  -- The thread waits with the buffer empty, and `ms` has been published.
  pub record Rests (r : Publisher M × List (Event M)) (ms : List M) : Type ℓ where
    pub waits : r.0.spot ≡ waiting
    pub emptied : r.0.buffer ≡ []
    pub publishes : published_in r.1 ≡ ms

  -- At most `n` turns later.
  abbrev pub Drains : Publisher M → List M → ℕ → Type ℓ
  Drains s ms n = (k : ℕ) × (k ≤ n) × Rests (thread_turns k s) ms

  weaken : (s : Publisher M) (ms : List M) (n m : ℕ) → n ≤ m → Drains s ms n → Drains s ms m
  weaken s ms n m h (k, l, r) = (k, omega arith, r)

  -- A publisher that is not shut down, with the thread at `p`.
  live : Spot M → Bool → List M → Publisher M → Publisher M
  live p notified b s = record s {
    spot = p;
    notified = notified;
    buffer = b;
    auto_publish = true;
    shutdown_requested = false;
  }

  moves :
      (s q : Publisher M) (es : List (Event M)) (ms : List M) (n : ℕ)
      → turn s ≡ (q, es)
      → Drains q ms n
      → Drains s (published_in es ++ ms) (suc n)
  unfolding thread_turns
  moves s q es ms n e (k, l, r) = (
    suc k,
    omega arith,
    subst
        (λ (x : Publisher M × List (Event M)).
          let f = thread_turns k x.0 in Rests (f.0, x.1 ++ f.1) (published_in es ++ ms))
        (sym e)
        record {
          waits = r.waits;
          emptied = r.emptied;
          publishes =
              published_in-append es (thread_turns k q).1
              ∙ ap (λ xs. published_in es ++ xs) r.publishes;
        },
  )

  rests : (s : Publisher M) → Drains (live waiting false [] s) [] 0
  unfolding live thread_turns published_in
  rests s = (0, omega arith, record { waits = refl; emptied = refl; publishes = refl })

  -- From the head of the loop in `sendRos`, with a notification there or not.
  sends_all :
      (b : List M) (v : Bool) (s : Publisher M) → Drains (live sending v b s) b (3 * length b + 7)
  unfolding live turn turn_at published_in
  sends_all [] false s = weaken _ _ 3 _ (omega arith) (
      moves _ (live popping false [] s) [] [] 2 refl (
        moves _ (live looping false [] s) [] [] 1 refl
          (moves _ (live waiting false [] s) [] [] 0 refl (rests s))))
  sends_all [] true s = moves _ (live popping true [] s) [] [] _ refl (
      moves _ (live looping true [] s) [] [] _ refl (
        moves _ (live waiting true [] s) [] [] _ refl (
          moves _ (live sending false [] s) [] [] _ refl (
            moves _ (live popping false [] s) [] [] _ refl (
              moves _ (live looping false [] s) [] [] _ refl
                (moves _ (live waiting false [] s) [] [] _ refl (rests s)))))))
  sends_all (m ∷ b) v s = weaken _ _ (suc (suc (suc (3 * length b + 7)))) _ (omega arith) (
      moves _ (live popping v (m ∷ b) s) [] (m ∷ b) _ refl (
        moves _ (live (holding m) v b s) (taken m ∷ []) (m ∷ b) _ refl
          (moves _ (live sending v b s) (published m ∷ []) b _ refl (sends_all b v s))))

  -- From the wait, unless it is for a notification that does not come.
  waits_all :
      (v : Bool) (b : List M) (s : Publisher M)
      → IsWoken (live waiting v b (record s { pending = 0 }))
      → Drains (live waiting v b (record s { pending = 0 })) b (3 * length b + 8)
  unfolding live turn turn_at published_in
  waits_all true b s w = weaken _ _ (suc (3 * length b + 7)) _ (omega arith) (
      moves _ (live sending false b (record s { pending = 0 })) [] b _ refl
        (sends_all b false (record s { pending = 0 })))
  waits_all false [] s w = weaken _ _ 0 _ (omega arith) (rests (record s { pending = 0 }))
  waits_all false (m ∷ b) s w = let lost = w refl in absurd (ground arith)

  -- Past the test of `shutdownRequested_`.
  pops_all :
      (b : List M) (v : Bool) (s : Publisher M)
      → Drains (live popping v b (record s { pending = 0 })) b (3 * length b + 10)
  unfolding live turn turn_at published_in
  pops_all [] v s = moves _ (live looping v [] (record s { pending = 0 })) [] [] _ refl (
      moves _ (live waiting v [] (record s { pending = 0 })) [] [] _ refl
        (waits_all v [] s (λ e. cc)))
  pops_all (m ∷ b) v s = weaken _ _ (suc (suc (3 * length b + 7))) _ (omega arith) (
      moves _ (live (holding m) v b (record s { pending = 0 })) (taken m ∷ []) (m ∷ b) _ refl (
        moves _ (live sending v b (record s { pending = 0 })) (published m ∷ []) b _ refl
          (sends_all b v (record s { pending = 0 }))))

  -- Wherever the thread stands, unless it waits for a notification that does not come.
  drains :
      (p : Spot M) (v : Bool) (b : List M) (s : Publisher M)
      → is_alive p ≡ true
      → is_ended p ≡ false
      → IsWoken (live p v b (record s { pending = 0 }))
      → Drains (live p v b (record s { pending = 0 })) (held p ++ b) (3 * length b + 10)
  unfolding live turn turn_at published_in held
  drains outside v b s l e w = cc
  drains ended v b s l e w = cc
  drains sending v b s l e w =
      weaken _ _ (3 * length b + 7) _ (omega arith) (sends_all b v (record s { pending = 0 }))
  drains popping v b s l e w = pops_all b v s
  drains (holding m) v b s l e w = weaken _ _ (suc (3 * length b + 7)) _ (omega arith) (
      moves _ (live sending v b (record s { pending = 0 })) (published m ∷ []) b _ refl
        (sends_all b v (record s { pending = 0 })))
  drains waiting v b s l e w = weaken _ _ (3 * length b + 8) _ (omega arith) (waits_all v b s w)
  drains looping v b s l e w =
      weaken _ _ (suc (3 * length b + 8)) _ (omega arith)
        (moves _ (live waiting v b (record s { pending = 0 })) [] b _ refl (waits_all v b s w))

  run-Drains :
      (max_size : ℕ) (os : List (Op M)) (q : Publisher M) (es : List (Event M))
      → run (construct max_size true) os ≡ some (q, es)
      → q.shutdown_requested ≡ false
      → q.pending ≡ 0
      → (k : ℕ) × (k ≤ 3 * length q.buffer + 10)
        × Rests (thread_turns k q) (held q.spot ++ q.buffer)
  unfolding construct live
  run-Drains max_size os q es e n z =
      let v =
        run_keeps IsRunning step-IsRunning os (construct max_size true)
          record { threaded = refl; alive = refl; asked = λ x. x } q es e in
      let w = run-IsWoken os (construct max_size true) (ground arith) q es e in
      subst (λ s. IsWoken s → Drains s (held q.spot ++ q.buffer) (3 * length q.buffer + 10))
        (λ i. record q {
          auto_publish = sym v.threaded i;
          shutdown_requested = sym n i;
          pending = sym z i;
        })
        (drains q.spot q.notified q.buffer q v.alive (not_ended q v n)) w

  sent :
      (max_size : ℕ) (os : List (Op M)) (q : Publisher M) (es : List (Event M))
      → 1 ≤ max_size
      → run (construct max_size true) os ≡ some (q, es)
      → published_in es ++ held q.spot ≡ taken_in es
  sent max_size os q es h e =
      let (r, fs, f, b, o, t) = run_lem max_size true os h in
      subst (λ (x : Publisher M × List (Event M)). published_in x.1 ++ held x.0.spot ≡ taken_in x.1)
        (some_inj _ _ (sym f ∙ e)) t

  -- With a positive size, after any interleaving, any number of threads in `sendRos` among it, if the end
  -- was not asked for and no notification is on its way, and no other thread is in `sendRos` from then
  -- on: within three times as many turns as there are messages in the buffer, and ten, the thread waits
  -- with the buffer empty; and the messages that it has published since the start are then those that it
  -- had taken from the buffer, followed by those that were left in it, in order.
  pub drains_lem :
      (max_size : ℕ) (os : List (Op M)) (q : Publisher M) (es : List (Event M))
      → 1 ≤ max_size
      → run (construct max_size true) os ≡ some (q, es)
      → q.shutdown_requested ≡ false
      → q.pending ≡ 0
      → (k : ℕ) × (k ≤ 3 * length q.buffer + 10)
        × ((thread_turns k q).0.spot ≡ waiting)
        × ((thread_turns k q).0.buffer ≡ [])
        × (published_in (es ++ (thread_turns k q).1) ≡ taken_in es ++ q.buffer)
  drains_lem max_size os q es h e n z =
      let (k, l, r) = run-Drains max_size os q es e n z in
      (
        k,
        l,
        r.waits,
        r.emptied,
        published_in-append es (thread_turns k q).1
            ∙ ap (λ xs. published_in es ++ xs) r.publishes
            ∙ sym (append_assoc (published_in es) (held q.spot) q.buffer)
            ∙ ap (λ xs. xs ++ q.buffer) (sent max_size os q es h e),
      )
