-- ===== src/Manager/Order/Ends.antt =====
-- The loops that end workers, as loops with an action.
use any_node.Base.{
  ◌≡◌, refl, sym, ap, ◌∙◌, true, false, if◌then◌else◌, Bool-cases, inl, inr, List, [], ◌∷◌, ◌++◌,
}
use any_node.Base.Dict.{find, string_eq}
use any_node.Double.{Double}
use any_node.Worker.{Worker, Effect, returned, ◌>>=◌, destroy, is_destructible}
use any_node.Manager.Defs.{Manager, Client, Inputs, caller_for, clear, clean_destructible_workers}
use any_node.Manager.Lookup.{AreDistinct, surviving, find_cleaned, find_kept}
use any_node.Manager.Calls.Entries.{>>=-returned, returned-inj, returned-fst}
use any_node.Manager.Order.{SameEntries}
use any_node.Manager.Order.Loops.{Action, each, each-SameEntries}
use Prim.Native.String.{String}

module _ {D : Type 0} ⦃d : Double D⦄ (c : Client) (inputs : Inputs) where
  -- The destructor of a worker, which is left where it is.
  abbrev destroying : Action D
  destroying name w = do es ← destroy (caller_for c name) w (inputs name); returned (w, es)

  abbrev cleaning : Action D
  cleaning name w = if is_destructible w then destroying name w else returned (w, [])

  clear-each :
      (m : Manager D) (es : List (Effect D))
      → clear c m inputs ≡ returned es
      → each destroying m ≡ returned (m, es)
  unfolding each clear
  clear-each [] es e = ap (λ x. returned ([], x)) (returned-inj e)
  clear-each ((name, w) ∷ m) es e =
      let (fs, g, h) = >>=-returned (destroy (caller_for c name) w (inputs name)) _ e in
      let (gs, k, f) = >>=-returned (clear c m inputs) _ h in
      rw (g, clear-each m gs k) (ap (λ x. returned ((name, w) ∷ m, x)) (returned-inj f))

  each-clear :
      (m q : Manager D) (es : List (Effect D))
      → each destroying m ≡ returned (q, es)
      → clear c m inputs ≡ returned es
  unfolding each clear
  each-clear [] q es e = ap (λ (x : Manager D × List (Effect D)). returned x.1) (returned-inj e)
  each-clear ((name, w) ∷ m) q es e =
      let (r, g, h) = >>=-returned (destroying name w) _ e in
      let (fs, g2, g3) = >>=-returned (destroy (caller_for c name) w (inputs name)) _ g in
      let (rest, k, f) = >>=-returned (each destroying m) _ h in
      rw (g2, each-clear m rest.0 rest.1 k)
        (ap (λ x. returned (x ++ rest.1))
            (ap (λ (x : Worker D × List (Effect D)). x.1) (returned-inj g3))
          ∙ ap (λ (x : Manager D × List (Effect D)). returned x.1) (returned-inj f))

  -- The workers that are not destructible.
  abbrev kept : Manager D → Manager D
  kept [] = []
  kept ((name, w) ∷ m) = let rest = kept m in if is_destructible w then rest else (name, w) ∷ rest

  -- One round, from what it calls.
  clean_drop :
      (name : String) (w : Worker D) (m : Manager D) (fs : List (Effect D))
      → (rest : Manager D × List (Effect D)) → is_destructible w ≡ true
      → destroy (caller_for c name) w (inputs name) ≡ returned fs
      → clean_destructible_workers c m inputs ≡ returned rest
      → clean_destructible_workers c ((name, w) ∷ m) inputs ≡ returned (rest.0, fs ++ rest.1)
  unfolding clean_destructible_workers
  clean_drop name w m fs rest b g k = rw (b, g, k)

  clean_keep :
      (name : String) (w : Worker D) (m : Manager D) (rest : Manager D × List (Effect D))
      → is_destructible w ≡ false
      → clean_destructible_workers c m inputs ≡ returned rest
      → clean_destructible_workers c ((name, w) ∷ m) inputs ≡ returned ((name, w) ∷ rest.0, rest.1)
  unfolding clean_destructible_workers
  clean_keep name w m rest b k = rw (b, k)

  each_one :
      (f : Action D) (name : String) (w : Worker D) (m : Manager D)
      → (r : Worker D × List (Effect D)) (rest : Manager D × List (Effect D))
      → f name w ≡ returned r
      → each f m ≡ returned rest
      → each f ((name, w) ∷ m) ≡ returned ((name, r.0) ∷ rest.0, r.1 ++ rest.1)
  unfolding each
  each_one f name w m r rest g k = rw (g, k)

  cleaning_drop :
      (name : String) (w : Worker D) (fs : List (Effect D))
      → is_destructible w ≡ true
      → destroy (caller_for c name) w (inputs name) ≡ returned fs
      → cleaning name w ≡ returned (w, fs)
  cleaning_drop name w fs b g = rw (b, g)

  cleaning_keep :
      (name : String) (w : Worker D)
      → is_destructible w ≡ false
      → cleaning name w ≡ returned (w, [])
  cleaning_keep name w b = rw b

  kept_drop :
      (name : String) (w : Worker D) (m : Manager D)
      → is_destructible w ≡ true
      → kept ((name, w) ∷ m) ≡ kept m
  kept_drop name w m b = rw b

  kept_keep :
      (name : String) (w : Worker D) (m : Manager D)
      → is_destructible w ≡ false
      → kept ((name, w) ∷ m) ≡ (name, w) ∷ kept m
  kept_keep name w m b = rw b

  clean-each :
      (m q : Manager D) (es : List (Effect D))
      → clean_destructible_workers c m inputs ≡ returned (q, es)
      → (fs : List (Effect D)) × (each cleaning m ≡ returned (m, fs)) × (q ≡ kept m)
  unfolding each clean_destructible_workers
  clean-each [] q es e = ([], refl, sym (returned-fst e))
  clean-each ((name, w) ∷ m) q es e = elim (Bool-cases (is_destructible w)) [
    | inl b ↦
        let (fs, g, h) = >>=-returned (destroy (caller_for c name) w (inputs name)) _ (rw b at e) in
        let (rest, k, f) = >>=-returned (clean_destructible_workers c m inputs) _ h in
        let (gs, l, same) = clean-each m rest.0 rest.1 k in
        (
          fs ++ gs,
          each_one cleaning name w m (w, fs) (m, gs) (cleaning_drop name w fs b g) l,
          sym (returned-fst f) ∙ same ∙ sym (kept_drop name w m b),
        )
    | inr b ↦
        let (rest, k, f) = >>=-returned (clean_destructible_workers c m inputs) _ (rw b at e) in
        let (gs, l, same) = clean-each m rest.0 rest.1 k in
        (
          gs,
          each_one cleaning name w m (w, []) (m, gs) (cleaning_keep name w b) l,
          sym (returned-fst f) ∙ ap (◌∷◌ (name, w)) same ∙ sym (kept_keep name w m b),
        )
  ]

  each-clean :
      (m q : Manager D) (es : List (Effect D))
      → each cleaning m ≡ returned (q, es)
      → (fs : List (Effect D)) × (clean_destructible_workers c m inputs ≡ returned (kept m, fs))
  unfolding each clean_destructible_workers
  each-clean [] q es e = ([], refl)
  each-clean ((name, w) ∷ m) q es e =
      let (r, g, h) = >>=-returned (cleaning name w) _ e in
      let (rest, k, f) = >>=-returned (each cleaning m) _ h in
      let (gs, l) = each-clean m rest.0 rest.1 k in
      elim (Bool-cases (is_destructible w)) [
        | inl b ↦
            let (fs, g2, g3) =
              >>=-returned (destroy (caller_for c name) w (inputs name)) _ (rw b at g) in
            (
              fs ++ gs,
              clean_drop name w m fs (kept m, gs) b g2 l
                  ∙ ap (λ x. returned (x, fs ++ gs)) (sym (kept_drop name w m b)),
            )
        | inr b ↦ (
          gs,
          clean_keep name w m (kept m, gs) b l
              ∙ ap (λ x. returned (x, gs)) (sym (kept_keep name w m b)),
        )
      ]

  find-kept :
      (name : String) (m : Manager D) → AreDistinct m → find name (kept m) ≡ surviving (find name m)
  unfolding find
  find-kept name [] v = refl
  find-kept name ((j, w) ∷ m) v = elim (Bool-cases (is_destructible w)) [
    | inl b ↦
        ap (find name) (kept_drop j w m b)
        ∙ find_cleaned j name w m (kept m) v.0 (λ i. find-kept i m v.1) b
    | inr b ↦
        ap (find name) (kept_keep j w m b)
        ∙ find_kept j name w m (kept m) (λ i. find-kept i m v.1) b
  ]

  -- `cleanDestructibleWorkers` over another order of the same entries.
  pub clean-SameEntries :
      (m n q : Manager D) (es : List (Effect D))
      → AreDistinct m
      → AreDistinct n
      → SameEntries m n
      → clean_destructible_workers c m inputs ≡ returned (q, es)
      → (r : Manager D) × (fs : List (Effect D)) × (clean_destructible_workers c n inputs
          ≡ returned (r, fs))
        × SameEntries q r
  clean-SameEntries m n q es u v s e =
      let (fs, g, same) = clean-each m q es e in
      let (r, gs, h, _) = each-SameEntries cleaning m n m fs v s g in
      let (hs, k) = each-clean n r gs h in
      (
        kept n,
        hs,
        k,
        λ name.
            ap (find name) same
            ∙ find-kept name m u
            ∙ ap surviving (s name)
            ∙ sym (find-kept name n v),
      )

  -- The destructors of all workers over another order of the same entries.
  pub clear-SameEntries :
      (m n : Manager D) (es : List (Effect D))
      → AreDistinct n
      → SameEntries m n
      → clear c m inputs ≡ returned es
      → (fs : List (Effect D)) × (clear c n inputs ≡ returned fs)
  clear-SameEntries m n es v s e =
      let (r, fs, h, _) = each-SameEntries destroying m n m es v s (clear-each m es e) in
      (fs, each-clear n r fs h)
