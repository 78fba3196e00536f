-- ===== src/Manager/Calls/Loops.antt =====
-- The methods that go through all entries.
use any_node.Base.{
  subst, ◌≡◌, ap, Bool, true, false, none, some, List, [], ◌∷◌, inl, inr, Bool-cases,
}
use any_node.Base.Int.{ℤ, pos}
use any_node.Base.Dict.{find, string_eq}
use any_node.Double.{Double}
use any_node.Worker.{Worker, Effect, returned, Platform, stop, start, destroy, is_destructible}
use any_node.Worker.Reach.{Inv, stop-Inv, start-Inv}
use any_node.Manager.Defs.{
  Manager, Inputs, Client, caller_for, start_workers, start_unless_aborted, stop_workers,
  clean_destructible_workers, clean_one,
}
use Prim.Native.String.{String}
use text.Mathlib.Text.{◌==◌ as str_eq}
use any_node.Manager.Calls.Entries.{IsGood, >>=-returned, returned-inj, fst_of}

module _ {D : Type 0} ⦃d : Double D⦄ where
  -- A loop that keeps each name, or drops it, and makes no new one.
  record Shrinks (m q : Manager D) : Type 0 where
    good : IsGood q
    fresh : (j : String) → find j m ≡ none → find j q ≡ none

  cons-Shrinks :
      (name : String) (w x : Worker D) (m q : Manager D)
      → IsGood ((name, w) ∷ m)
      → Inv x
      → Shrinks m q
      → Shrinks ((name, w) ∷ m) ((name, x) ∷ q)
  unfolding find
  cons-Shrinks name w x m q g i s = record {
    good = record {
      sound = (i, s.good.sound);
      distinct = (s.fresh name g.distinct.0, s.good.distinct);
    };
    fresh = λ j e. elim (Bool-cases (str_eq name j)) [
      | inl b ↦ let absurd_case : some w ≡ none = rw b at e in cc
      | inr b ↦ let rest : find j m ≡ none = rw b at e in rw b (s.fresh j rest)
    ];
  }

  drop-Shrinks :
      (name : String) (w : Worker D) (m q : Manager D) → Shrinks m q → Shrinks ((name, w) ∷ m) q
  unfolding find
  drop-Shrinks name w m q s = record {
    good = s.good;
    fresh = λ j e. elim (Bool-cases (str_eq name j)) [
      | inl b ↦ let absurd_case : some w ≡ none = rw b at e in cc
      | inr b ↦ let rest : find j m ≡ none = rw b at e in s.fresh j rest
    ];
  }

  nil-Shrinks : Shrinks [] []
  nil-Shrinks = record { good = record { sound = tt; distinct = tt }; fresh = λ j e. e }

  tail-IsGood : {name : String} {w : Worker D} {m : Manager D} → IsGood ((name, w) ∷ m) → IsGood m
  tail-IsGood g = record { sound = g.sound.1; distinct = g.distinct.1 }

  stop_workers-Shrinks :
      (c : Client) (m : Manager D) (wait : Bool) (inputs : Inputs)
      → IsGood m
      → (q : Manager D) (es : List (Effect D)) → stop_workers c m wait inputs ≡ returned (q, es)
      → Shrinks m q
  unfolding stop_workers
  stop_workers-Shrinks c [] wait inputs g q es e =
      subst (Shrinks []) (ap fst_of (returned-inj e)) nil-Shrinks
  stop_workers-Shrinks c ((name, w) ∷ m) wait inputs g q es e =
      let (r, o, f) = >>=-returned (stop (caller_for c name) wait w (inputs name)) _ e in
      let (rest, p, h) = >>=-returned (stop_workers c m wait inputs) _ f in
      subst (Shrinks ((name, w) ∷ m)) (ap fst_of (returned-inj h)) (
        cons-Shrinks name w r.0 m rest.0 g
          (stop-Inv (caller_for c name) wait w (inputs name) o g.sound.0)
          (stop_workers-Shrinks c m wait inputs (tail-IsGood g) rest.0 rest.1 p))

  clean-Shrinks :
      (c : Client) (m : Manager D) (inputs : Inputs)
      → IsGood m
      → (q : Manager D) (es : List (Effect D))
      → clean_destructible_workers c m inputs ≡ returned (q, es)
      → Shrinks m q
  unfolding clean_destructible_workers
  clean-Shrinks c [] inputs g q es e = subst (Shrinks []) (ap fst_of (returned-inj e)) nil-Shrinks
  clean-Shrinks c ((name, w) ∷ m) inputs g q es e = elim (Bool-cases (is_destructible w)) [
    | inl b ↦
        let one : clean_one true c name w inputs (clean_destructible_workers c m inputs)
            ≡ returned (q, es) =
          rw b at e in
        let (r, o, f) = >>=-returned (destroy (caller_for c name) w (inputs name)) _ one in
        let (rest, p, h) = >>=-returned (clean_destructible_workers c m inputs) _ f in
        subst (Shrinks ((name, w) ∷ m)) (ap fst_of (returned-inj h))
          (drop-Shrinks name w m rest.0 (clean-Shrinks c m inputs (tail-IsGood g) rest.0 rest.1 p))
    | inr b ↦
        let one : clean_one false c name w inputs (clean_destructible_workers c m inputs)
            ≡ returned (q, es) =
          rw b at e in
        let (rest, p, h) = >>=-returned (clean_destructible_workers c m inputs) _ one in
        subst (Shrinks ((name, w) ∷ m)) (ap fst_of (returned-inj h)) (
          cons-Shrinks name w w m rest.0 g g.sound.0
            (clean-Shrinks c m inputs (tail-IsGood g) rest.0 rest.1 p))
  ]

  pub stop_workers-IsGood :
      (c : Client) (m : Manager D) (wait : Bool) (inputs : Inputs)
      → IsGood m
      → (q : Manager D) (es : List (Effect D)) → stop_workers c m wait inputs ≡ returned (q, es)
      → IsGood q
  stop_workers-IsGood c m wait inputs g q es e =
      (stop_workers-Shrinks c m wait inputs g q es e).good

  pub clean-IsGood :
      (c : Client) (m : Manager D) (inputs : Inputs)
      → IsGood m
      → (q : Manager D) (es : List (Effect D))
      → clean_destructible_workers c m inputs ≡ returned (q, es)
      → IsGood q
  clean-IsGood c m inputs g q es e = (clean-Shrinks c m inputs g q es e).good

module _ {D : Type 0} ⦃d : Double D⦄ ⦃p : Platform⦄ where
  pub start_unless_aborted-Inv :
      (w : Worker D) (priority : ℤ)
      → Inv w
      → (q : Worker D) (es : List (Effect D)) → start_unless_aborted w priority ≡ returned (q, es)
      → Inv q
  start_unless_aborted-Inv w priority v q es e =
      let (r, o, f) = >>=-returned (start w priority) _ e in
      subst Inv (ap fst_of (returned-inj f)) (start-Inv w priority o v)

  start_workers-Shrinks :
      (m : Manager D)
      → IsGood m
      → (q : Manager D) (es : List (Effect D)) → start_workers m ≡ returned (q, es)
      → Shrinks m q
  unfolding start_workers
  start_workers-Shrinks [] g q es e = subst (Shrinks []) (ap fst_of (returned-inj e)) nil-Shrinks
  start_workers-Shrinks ((name, w) ∷ m) g q es e =
      let (r, o, f) = >>=-returned (start_unless_aborted w (pos 0)) _ e in
      let (rest, p, h) = >>=-returned (start_workers m) _ f in
      subst (Shrinks ((name, w) ∷ m)) (ap fst_of (returned-inj h)) (
        cons-Shrinks name w r.0 m rest.0 g (start_unless_aborted-Inv w (pos 0) g.sound.0 r.0 r.1 o)
          (start_workers-Shrinks m (tail-IsGood g) rest.0 rest.1 p))

  pub start_workers-IsGood :
      (m : Manager D)
      → IsGood m
      → (q : Manager D) (es : List (Effect D)) → start_workers m ≡ returned (q, es)
      → IsGood q
  start_workers-IsGood m g q es e = (start_workers-Shrinks m g q es e).good
