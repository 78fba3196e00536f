-- ===== src/Manager/Order/Loops.antt =====
-- The loops over all workers, by what they do to the worker of each name.
use any_node.Base.{
  ◌≡◌, refl, sym, ap, subst, ◌∙◌, arith, Bool-cases, inl, inr, Option, none, some, List, [], ◌∷◌,
  ◌++◌, some_inj,
}
use any_node.Base.Dict.{find, string_eq, beq_refl}
use any_node.Double.{Double}
use any_node.Worker.{Worker, Effect, Outcome, returned, ◌>>=◌}
use any_node.Manager.Defs.{Manager, Result}
use any_node.Manager.Lookup.{AreDistinct}
use any_node.Manager.Calls.Entries.{>>=-returned, returned-inj, returned-fst}
use any_node.Manager.Order.{SameEntries}
use Prim.Native.String.{String}
use text.Mathlib.Text.{◌==◌ as str_eq}
use text.Mathlib.TextEquality.{eq_iff}

abbrev pub Action : Type 0 → Type 0
Action D = String → Worker D → Outcome (Worker D × List (Effect D))

module _ {D : Type 0} ⦃d : Double D⦄ where
  -- One worker after the other.
  unfoldable pub each : Action D → Manager D → Result D
  each f [] = returned ([], [])
  each f ((name, w) ∷ m) = do
    r ← f name w
    rest ← each f m
    returned ((name, r.0) ∷ rest.0, r.1 ++ rest.1)

  -- What an action makes of the worker of a name, if there is one.
  abbrev pub Done : Action D → String → Option (Worker D) → Option (Worker D) → Type 0
  Done f name none after = after ≡ none
  Done f name (some w) after =
      (r : Worker D × List (Effect D)) × (f name w ≡ returned r) × (after ≡ some r.0)

  Done-unique :
      (f : Action D) (name : String) (before a b : Option (Worker D))
      → Done f name before a
      → Done f name before b
      → a ≡ b
  Done-unique f name none a b h k = h ∙ sym k
  Done-unique f name (some w) a b h k =
      h.2
      ∙ ap some (ap (λ (x : Worker D × List (Effect D)). x.0) (returned-inj (sym h.1 ∙ k.1)))
      ∙ sym k.2

  each-Done :
      (f : Action D) (m q : Manager D) (es : List (Effect D))
      → each f m ≡ returned (q, es)
      → (name : String) → Done f name (find name m) (find name q)
  unfolding each find
  each-Done f [] q es e name = ap (find name) (sym (returned-fst e))
  each-Done f ((j, w) ∷ m) q es e name =
      let (r, g, h) = >>=-returned (f j w) _ e in
      let (rest, k, l) = >>=-returned (each f m) _ h in
      subst (λ x. Done f name (find name ((j, w) ∷ m)) (find name x)) (returned-fst l)
        (elim (Bool-cases (str_eq j name)) [
          | inl b ↦ rw b (r, subst (λ x. f x w ≡ returned r) ((eq_iff j name).0 b) g, refl)
          | inr b ↦ rw b (each-Done f m rest.0 rest.1 k name)
        ])

  -- The action returns for each worker that is found.
  abbrev pub AllReturn : Action D → Manager D → Type 0
  AllReturn f m =
      (name : String) (w : Worker D)
      → find name m ≡ some w
      → (r : Worker D × List (Effect D)) × (f name w ≡ returned r)

  AllReturn-tail :
      (f : Action D) (j : String) (w : Worker D) (m : Manager D)
      → AreDistinct ((j, w) ∷ m)
      → AllReturn f ((j, w) ∷ m)
      → AllReturn f m
  unfolding find
  AllReturn-tail f j w m v h name x e = h name x (ground (arith, e, v.0, eq_iff j name))

  each_returns :
      (f : Action D) (m : Manager D)
      → AreDistinct m
      → AllReturn f m
      → (q : Manager D) × (es : List (Effect D)) × (each f m ≡ returned (q, es))
  unfolding each find
  each_returns f [] v h = ([], [], refl)
  each_returns f ((j, w) ∷ m) v h =
      let (r, g) = h j w (rw (beq_refl j)) in
      let (q, es, e) = each_returns f m v.1 (AllReturn-tail f j w m v h) in
      ((j, r.0) ∷ q, r.1 ++ es, rw (g, e))

  Done-some :
      (f : Action D) (name : String) (w : Worker D) (before after : Option (Worker D))
      → before ≡ some w
      → Done f name before after
      → (r : Worker D × List (Effect D)) × (f name w ≡ returned r)
  Done-some f name w none after e h = cc
  Done-some f name w (some x) after e h =
      (h.0, subst (λ y. f name y ≡ returned h.0) (some_inj _ _ e) h.1)

  -- The loop over another order of the same entries.
  pub each-SameEntries :
      (f : Action D) (m n q : Manager D) (es : List (Effect D))
      → AreDistinct n
      → SameEntries m n
      → each f m ≡ returned (q, es)
      → (r : Manager D) × (fs : List (Effect D)) × (each f n ≡ returned (r, fs)) × SameEntries q r
  each-SameEntries f m n q es v s e =
      let done = each-Done f m q es e in
      let (r, fs, g) =
        each_returns f n v
          (λ name w h. Done-some f name w (find name m) (find name q) (s name ∙ h) (done name)) in
      (
        r,
        fs,
        g,
        λ name.
            Done-unique f name (find name m) (find name q) (find name r) (done name)
              (subst (λ x. Done f name x (find name r)) (sym (s name)) (each-Done f n r fs g name)),
      )
