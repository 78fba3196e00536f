-- ===== src/Manager/Calls/Entries.antt =====
-- Maps of workers in a good state, and the methods that touch one entry.
use any_node.Base.{
  subst, ◌≡◌, refl, ap, arith, none, List, [], ◌∷◌, inl, inr, Bool-cases, Option-cases,
}
use any_node.Base.Dict.{find, put, erase, string_eq, find-put, find-erase, beq-sym}
use any_node.Double.{Double}
use any_node.Rate
use any_node.Rate.Timespec.{Timespec}
use any_node.Worker.{Worker, Effect, Outcome, returned, aborted, blocked, ◌>>=◌, move}
use any_node.Worker.Reach.{Inv}
use any_node.Manager.Defs.{Manager, Result, at_worker, stored}
use any_node.Manager.Cancel.{AreSound, Inv-find}
use any_node.Manager.Lookup.{AreDistinct}
use Prim.Native.String.{String}
use text.Mathlib.Text.{◌==◌ as str_eq}
use text.Mathlib.TextEquality.{eq_iff}

pub >>=-returned {ℓ κ} :
    {A : Type ℓ} {B : Type κ} (m : Outcome A) (f : A → Outcome B) {b : B}
    → (m >>= f) ≡ returned b
    → (a : A) × (m ≡ returned a) × (f a ≡ returned b)
>>=-returned (returned a) f e = (a, refl, e)
>>=-returned aborted f e = cc
>>=-returned blocked f e = cc

pub returned-inj {ℓ} : {A : Type ℓ} {a b : A} → returned a ≡ returned b → a ≡ b
returned-inj e = cc

pub returned-fst {ℓ κ} :
    {A : Type ℓ} {B : Type κ} {a c : A} {b d : B}
    → ◌≡◌ {A = Outcome (A × B)} (returned (a, b)) (returned (c, d))
    → a ≡ c
returned-fst e = cc

abbrev pub fst_of {ℓ κ} : {A : Type ℓ} {B : Type κ} → A × B → A
fst_of p = p.0

module _ {D : Type 0} ⦃d : Double D⦄ where
  -- Distinct names, and workers in states that their invariant allows.
  pub record IsGood (m : Manager D) : Type 0 where
    pub sound : AreSound m
    pub distinct : AreDistinct m

  pub move-Inv : (w : Worker D) (now : Timespec) → Inv w → Inv (move w now)
  unfolding move Rate.move Rate.reset
  move-Inv w now v = ground arith

  pub put-IsGood :
      (k : String) (w : Worker D) (m : Manager D) → Inv w → IsGood m → IsGood (put k w m)
  unfolding put find
  put-IsGood k w [] i g = record { sound = (i, tt); distinct = (refl, tt) }
  put-IsGood k w ((j, x) ∷ m) i g =
      let rest = put-IsGood k w m i (record { sound = g.sound.1; distinct = g.distinct.1 }) in
      elim (Bool-cases (str_eq j k)) [
        | inl b ↦ rw b (record {
          sound = (i, g.sound.1);
          distinct = (subst (λ n. find n m ≡ none) ((eq_iff j k).0 b) g.distinct.0, g.distinct.1);
        })
        | inr b ↦ rw b (record {
          sound = (g.sound.0, rest.sound);
          distinct = (rw (find-put j k w m, beq-sym k j, b) g.distinct.0, rest.distinct);
        })
      ]

  pub erase-IsGood : (k : String) (m : Manager D) → IsGood m → IsGood (erase k m)
  unfolding erase
  erase-IsGood k [] g = g
  erase-IsGood k ((j, x) ∷ m) g =
      let rest = erase-IsGood k m (record { sound = g.sound.1; distinct = g.distinct.1 }) in
      elim (Bool-cases (str_eq j k)) [
        | inl b ↦ rw b rest
        | inr b ↦ rw b (record {
          sound = (g.sound.0, rest.sound);
          distinct = (rw (find-erase j k m) (ground (arith, g.distinct.0)), rest.distinct);
        })
      ]

  pub stored-IsGood :
      (m : Manager D) (name : String) (out : Outcome (Worker D × List (Effect D)))
      → ((w : Worker D) (es : List (Effect D)) → out ≡ returned (w, es) → Inv w)
      → IsGood m
      → (q : Manager D) (es : List (Effect D)) → stored m name out ≡ returned (q, es)
      → IsGood q
  stored-IsGood m name out k g q es e =
      let (r, o, f) =
        >>=-returned out (λ (r : Worker D × List (Effect D)). returned (put name r.0 m, r.1)) e in
      subst IsGood (ap fst_of (returned-inj f)) (put-IsGood name r.0 m (k r.0 r.1 o) g)

  pub at_worker-IsGood :
      (m : Manager D) (name : String) (f : Worker D → Result D)
      → ((w : Worker D)
          → Inv w
          → (q : Manager D) (es : List (Effect D)) → f w ≡ returned (q, es)
          → IsGood q)
      → IsGood m
      → (q : Manager D) (es : List (Effect D)) → at_worker m name f ≡ returned (q, es)
      → IsGood q
  at_worker-IsGood m name f k g q es e = elim (Option-cases (find name m)) [
    | inl n ↦
        let same : returned (m, []) ≡ returned (q, es) = rw n at e in
        subst IsGood (ap fst_of (returned-inj same)) g
    | inr (w, n) ↦
        let out : f w ≡ returned (q, es) = rw n at e in k w (Inv-find m name w g.sound n) q es out
  ]
