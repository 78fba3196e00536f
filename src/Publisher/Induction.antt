-- ===== src/Publisher/Induction.antt =====
-- What each step keeps holds after any run.
use any_node.Base.{
  ◌≡◌, subst, Option, none, some, some_inj, List, [], ◌∷◌, ◌++◌, Option-cases, inl, inr,
}
use any_node.Publisher.Defs.{Publisher, Event, Op, step, run}

module _ {ℓ κ} {M : Type ℓ} (Inv : Publisher M → Type κ)
    (step_keeps : (s : Publisher M) (o : Op M) (q : Publisher M) (es : List (Event M))
      → step s o ≡ some (q, es)
      → Inv s
      → Inv q) where
  pub run_keeps :
      (os : List (Op M)) (s : Publisher M)
      → Inv s
      → (q : Publisher M) (es : List (Event M)) → run s os ≡ some (q, es)
      → Inv q
  unfolding run
  run_keeps [] s h q es e = subst (λ (x : Publisher M × List (Event M)). Inv x.0) (some_inj _ _ e) h
  run_keeps (o ∷ os) s h q es e = elim (Option-cases (step s o)) [
    | inl n ↦
        let absurd_case : ◌≡◌ {A = Option (Publisher M × List (Event M))} none (some (q, es)) =
          rw n at e in
        cc
    | inr (r, n) ↦ elim (Option-cases (run r.0 os)) [
      | inl u ↦
          let absurd_case : ◌≡◌ {A = Option (Publisher M × List (Event M))} none (some (q, es)) =
            rw (n, u) at e in
          cc
      | inr (rest, u) ↦
          let same : some (rest.0, r.1 ++ rest.1) ≡ some (q, es) = rw (n, u) at e in
          subst (λ (x : Publisher M × List (Event M)). Inv x.0) (some_inj _ _ same)
            (run_keeps os r.0 (step_keeps s o r.0 r.1 n h) rest.0 rest.1 u)
    ]
  ]
