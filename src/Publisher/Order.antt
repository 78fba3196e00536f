-- ===== src/Publisher/Order.antt =====
-- Where each message is: the buffer's bound, and the order of what is taken and published.
use any_node.Base.{
  ℕ, zero, suc, ◌≤◌, ◌≡◌, refl, sym, ◌∙◌, ap, arith, ◌==◌, Bool, true, false, ◌&&◌, if◌then◌else◌,
  Option, some, List, [], ◌∷◌, ◌++◌, length, length-append, append_assoc, append-nil, Bool-cases,
  inl, inr,
}
use any_node.Publisher.Defs.{
  Publisher, Spot, outside, looping, waiting, sending, popping, holding, ended, Event, closed, Op,
  adds, notifies, turns, grabs, delivers, grab, deliver_at, shuts_down, joins, construct,
  replace_oldest, add_message, notify_thread, take, back, turn_at, turn, is_ended, shutdown, joined,
  step, run,
}
use any_node.Publisher.Events.{
  accepted_in, left_in, taken_in, published_in, accepted_in-append, left_in-append, taken_in-append,
  published_in-append,
}

module _ {ℓ} {M : Type ℓ} where
  unfoldable pub held : Spot M → List M
  held (holding m) = m ∷ []
  held _ = []

  -- From `s` to `q` with the events `es`.
  record Keeps (s q : Publisher M) (es : List (Event M)) : Type ℓ where
    size : q.max_size ≡ s.max_size
    bound : length s.buffer ≤ s.max_size → length q.buffer ≤ q.max_size
    order : left_in es ++ q.buffer ≡ s.buffer ++ accepted_in es
    sent : published_in es ++ held q.spot ≡ held s.spot ++ taken_in es

  -- The outcome of a step or of a run: no undefined behaviour if the size is positive.
  abbrev Kept : Publisher M → Option (Publisher M × List (Event M)) → Type ℓ
  Kept s out = (q : Publisher M) × (es : List (Event M)) × (out ≡ some (q, es)) × Keeps s q es

  -- A step that leaves all messages where they are.
  quiet :
      (s q : Publisher M)
      → q.max_size ≡ s.max_size
      → q.buffer ≡ s.buffer
      → held q.spot ≡ held s.spot
      → Keeps s q []
  unfolding accepted_in left_in taken_in published_in
  quiet s q e f g = record {
    size = e;
    bound = λ b. rw (f, e) b;
    order = f ∙ sym (append-nil s.buffer);
    sent = g ∙ sym (append-nil (held s.spot));
  }

  push_full :
      (b : List M) (s : Publisher M) (m : M)
      → s.buffer ≡ b
      → 1 ≤ s.max_size
      → length b ≡ s.max_size
      → Kept s (replace_oldest b s m)
  unfolding accepted_in left_in taken_in published_in
  push_full [] s m e h f = absurd (omega arith)
  push_full (oldest ∷ rest) s m e h f = (
    _,
    _,
    refl,
    record {
      size = refl;
      bound = λ b. omega (arith, length-append rest (m ∷ []));
      order = rw e refl;
      sent = sym (append-nil (held s.spot));
    },
  )

  add-Kept : (s : Publisher M) (m : M) → 1 ≤ s.max_size → Kept s (add_message s m)
  unfolding add_message accepted_in left_in taken_in published_in
  add-Kept s m h = elim (Bool-cases (length s.buffer == s.max_size)) [
    | inl b ↦ rw b (push_full s.buffer s m refl h (ground arith))
    | inr b ↦ rw b (
      _,
      _,
      refl,
      record {
        size = refl;
        bound = λ k. ground (arith, length-append s.buffer (m ∷ []));
        order = refl;
        sent = sym (append-nil (held s.spot));
      },
    )
  ]

  branch :
      (s : Publisher M) (b : Bool) (x y : Publisher M × List (Event M))
      → Keeps s x.0 x.1
      → (b ≡ false → Keeps s y.0 y.1)
      → Keeps s (if b then x else y).0 (if b then x else y).1
  branch s true x y h k = h
  branch s false x y h k = k refl

  back-held : (b : Bool) → held (back b) ≡ []
  unfolding held
  back-held true = refl
  back-held false = refl

  take-Keeps :
      (b : List M) (s : Publisher M)
      → s.buffer ≡ b
      → held s.spot ≡ []
      → Keeps s (take b s).0 (take b s).1
  unfolding accepted_in left_in taken_in published_in held
  take-Keeps [] s e f =
      quiet s (record s { spot = back s.auto_publish }) refl refl (back-held s.auto_publish ∙ sym f)
  take-Keeps (m ∷ rest) s e f = record {
    size = refl;
    bound = λ b. omega (arith, ap length e);
    order = sym (append-nil s.buffer ∙ e);
    sent = ap (λ x. x ++ m ∷ []) (sym f);
  }

  turn_at-Keeps :
      (p : Spot M) (s : Publisher M) → s.spot ≡ p → Keeps s (turn_at p s).0 (turn_at p s).1
  unfolding turn_at accepted_in left_in taken_in published_in held
  turn_at-Keeps outside s e = quiet s s refl refl refl
  turn_at-Keeps looping s e = elim (Bool-cases s.shutdown_requested) [
    | inl b ↦ quiet s _ refl refl (rw (b, e) refl)
    | inr b ↦ quiet s _ refl refl (rw (b, e) refl)
  ]
  turn_at-Keeps waiting s e = elim (Bool-cases s.notified) [
    | inl b ↦ quiet s _ (rw b refl) (rw b refl) (rw b (ap held (sym e)))
    | inr b ↦ quiet s _ (rw b refl) (rw b refl) (rw b refl)
  ]
  turn_at-Keeps sending s e =
      branch s s.shutdown_requested _ _
        (quiet s (record s { spot = back s.auto_publish }) refl refl
          (back-held s.auto_publish ∙ ap held (sym e)))
        (λ b. quiet s (record s { spot = popping }) refl refl (ap held (sym e)))
  turn_at-Keeps popping s e = take-Keeps s.buffer s refl (ap held e)
  turn_at-Keeps (holding m) s e = record {
    size = refl;
    bound = λ b. b;
    order = sym (append-nil s.buffer);
    sent = rw e refl;
  }
  turn_at-Keeps ended s e = quiet s s refl refl refl

  closes :
      (s q : Publisher M)
      → q.max_size ≡ s.max_size
      → q.buffer ≡ s.buffer
      → q.spot ≡ s.spot
      → Keeps s q (closed ∷ [])
  unfolding accepted_in left_in taken_in published_in
  closes s q e f g =
      let k = quiet s q e f (ap held g) in
      record { size = e; bound = k.bound; order = k.order; sent = k.sent }

  shutdown-Keeps : (s : Publisher M) → Keeps s (shutdown s).0 (shutdown s).1
  unfolding shutdown
  shutdown-Keeps s =
      branch s s.shutdown_requested _ _ (quiet s s refl refl refl) (λ b.
        branch s s.auto_publish _ _ (quiet s _ refl refl refl) (λ c. closes s s refl refl refl))

  grab-Keeps : (b : List M) (s : Publisher M) → s.buffer ≡ b → Keeps s (grab b s).0 (grab b s).1
  unfolding accepted_in left_in taken_in published_in
  grab-Keeps [] s e = quiet s s refl refl refl
  grab-Keeps (m ∷ rest) s e = record {
    size = refl;
    bound = λ b. omega (arith, ap length e);
    order = sym (append-nil s.buffer ∙ e);
    sent = sym (append-nil (held s.spot));
  }

  deliver_at-Keeps :
      (n : ℕ) (ms : List M) (s q : Publisher M)
      → q.max_size ≡ s.max_size
      → q.buffer ≡ s.buffer
      → q.spot ≡ s.spot
      → Keeps s q (deliver_at n ms)
  unfolding accepted_in left_in taken_in published_in
  deliver_at-Keeps n [] s q e f g = quiet s q e f (ap held g)
  deliver_at-Keeps zero (m ∷ ms) s q e f g =
      let k = quiet s q e f (ap held g) in
      record { size = e; bound = k.bound; order = k.order; sent = k.sent }
  deliver_at-Keeps (suc n) (m ∷ ms) s q e f g = deliver_at-Keeps n ms s q e f g

  step-Kept : (s : Publisher M) (o : Op M) → 1 ≤ s.max_size → Kept s (step s o)
  unfolding step notify_thread turn shutdown joined
  step-Kept s (adds m) h = add-Kept s m h
  step-Kept s notifies h =
      (_, _, refl, quiet s (notify_thread s) (ground arith) (ground arith) (ground arith))
  step-Kept s turns h = (_, _, refl, turn_at-Keeps s.spot s refl)
  step-Kept s grabs h = (_, _, refl, grab-Keeps s.buffer s refl)
  step-Kept s (delivers n) h = (_, _, refl, deliver_at-Keeps n s.carried s _ refl refl refl)
  step-Kept s shuts_down h = (_, _, refl, shutdown-Keeps s)
  step-Kept s joins h = (
    _,
    _,
    refl,
    branch s (s.joining && is_ended s.spot) _ _ (closes s _ refl refl refl)
        (λ b. quiet s s refl refl refl),
  )

  chain :
      (a b x y z u v : List M) → a ++ y ≡ x ++ u → b ++ z ≡ y ++ v → (a ++ b) ++ z ≡ x ++ (u ++ v)
  chain a b x y z u v e f =
      append_assoc a b z
      ∙ ap (◌++◌ a) f
      ∙ sym (append_assoc a y v)
      ∙ ap (λ l. l ++ v) e
      ∙ append_assoc x u v

  then-Keeps :
      (s q r : Publisher M) (es fs : List (Event M))
      → Keeps s q es
      → Keeps q r fs
      → Keeps s r (es ++ fs)
  then-Keeps s q r es fs h k = record {
    size = k.size ∙ h.size;
    bound = λ b. k.bound (h.bound b);
    order =
        rw (left_in-append es fs, accepted_in-append es fs)
          (chain (left_in es) (left_in fs) s.buffer q.buffer r.buffer (accepted_in es)
            (accepted_in fs) h.order k.order);
    sent =
        rw (published_in-append es fs, taken_in-append es fs)
          (chain (published_in es) (published_in fs) (held s.spot) (held q.spot) (held r.spot)
            (taken_in es) (taken_in fs) h.sent k.sent);
  }

  run-Kept : (os : List (Op M)) (s : Publisher M) → 1 ≤ s.max_size → Kept s (run s os)
  unfolding run
  run-Kept [] s h = (s, [], refl, quiet s s refl refl refl)
  run-Kept (o ∷ os) s h =
      let (q, es, e, k) = step-Kept s o h in
      let (r, fs, f, l) = run-Kept os q (rw k.size h) in
      (r, es ++ fs, rw (e, f), then-Keeps s q r es fs k l)

  -- With a positive size, and whatever the threads do in whatever order, any number of them in `sendRos`
  -- beside the publisher's own: there is no undefined behaviour; the buffer holds at most that many
  -- messages; the messages leave it in the order in which they are given to `publish`, whoever takes
  -- them; and the thread publishes those that it takes in that order: all of them, but for one that it
  -- still holds.
  pub run_lem :
      (max_size : ℕ) (auto_publish : Bool) (os : List (Op M))
      → 1 ≤ max_size
      → (q : Publisher M) × (es : List (Event M)) × (run (construct max_size auto_publish) os
          ≡ some (q, es))
        × (length q.buffer ≤ max_size)
        × (left_in es ++ q.buffer ≡ accepted_in es)
        × (published_in es ++ held q.spot ≡ taken_in es)
  unfolding construct
  run_lem max_size auto_publish os h =
      let s = construct max_size auto_publish in
      let (q, es, e, k) = run-Kept os s h in
      (
        q,
        es,
        e,
        omega (arith, k.bound (omega arith), k.size),
        k.order,
        k.sent ∙ ap (λ x. x ++ taken_in es) (back-held auto_publish),
      )
