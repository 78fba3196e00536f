-- ===== src/Manager/Cancel.antt =====
-- The end of workers: `cancelWorker`, `cancelWorkers`, and the two destructors.
use any_node.Base.{
  ℕ, some_inj, subst, ◌≤◌, ◌≡◌, ap, arith, Bool, true, false, none, some, List, [], ◌∷◌, ◌++◌, inl,
  inr, Bool-cases,
}
use any_node.Base.Dict.{find, erase, string_eq}
use any_node.Double.{Double}
use any_node.Worker.{
  Worker, Effect, Input, returned, aborted, Caller, own_thread, other_thread, stop, destroy,
  joinable,
}
use any_node.Worker.Stop.{IsSound, stop_waits, calls, calls-append}
use any_node.Worker.Reach.{Inv}
use any_node.Manager.Defs.{Manager, Inputs, cancel, cancel_worker}
use text.Mathlib.TextPositions.{eq_refl}
use Prim.Native.String.{String}

module _ {D : Type 0} ⦃d : Double D⦄ where
  -- Each worker is in a state that its invariant allows.
  abbrev pub AreSound : Manager D → Type 0
  AreSound [] = Unit
  AreSound ((name, w) ∷ m) = Inv w × AreSound m

  pub Inv-find :
      (m : Manager D) (name : String) (w : Worker D) → AreSound m → find name m ≡ some w → Inv w
  unfolding find
  Inv-find [] name w v e = cc
  Inv-find ((n, x) ∷ m) name w v e = elim (Bool-cases (string_eq.beq n name)) [
    | inl b ↦ let same : some x ≡ some w = rw b at e in subst Inv (some_inj x w same) v.0
    | inr b ↦ Inv-find m name w v.1 (rw b at e)
  ]

  -- Whether the caller waits or not, a worker is cancelled only when its thread has ended.
  destroy_idle :
      (who : Caller) (w : Worker D) (inputs : ℕ → Input)
      → joinable w.handle ≡ false
      → destroy who w inputs ≡ returned []
  unfolding destroy stop
  destroy_idle own_thread w inputs j = rw j
  destroy_idle other_thread w inputs j = rw (j, j)

  signalled-IsSound : (w : Worker D) → IsSound w → IsSound (record w { running = false })
  signalled-IsSound w v = record { done = v.done; owned = λ e. cc }

  pub destroy_waits :
      (w : Worker D) (inputs : ℕ → Input)
      → IsSound w
      → (es : List (Effect D)) × (destroy other_thread w inputs ≡ returned es) × (calls es ≤ 1)
  unfolding destroy
  destroy_waits w inputs v =
      let (q, es, e, k) = stop_waits w inputs v in (es, rw (e, ap joinable k.handle), k.budget)

  cancel_ends :
      (wait : Bool) (w : Worker D) (inputs : ℕ → Input)
      → IsSound w
      → (es : List (Effect D)) × (cancel other_thread wait w inputs ≡ returned es) × (calls es ≤ 1)
  unfolding cancel stop
  cancel_ends true w inputs v =
      let (q, es, e, k) = stop_waits w inputs v in
      (
        es ++ [],
        rw (e, destroy_idle other_thread q inputs (ap joinable k.handle)),
        omega (arith, calls-append es [], k.budget),
      )
  cancel_ends false w inputs v =
      let (es, e, b) =
        destroy_waits (record w { running = false }) inputs (signalled-IsSound w v) in
      (es, rw e, b)

  -- A worker that is there is cancelled and its entry goes, whether the caller asks to wait or not:
  -- the destructor waits for its thread in either case, with at most one more call of its callback.
  cancel_worker_lem :
      (m : Manager D) (name : String) (w : Worker D) (wait : Bool) (inputs : Inputs)
      → AreSound m
      → find name m ≡ some w
      → (es : List (Effect D)) × (cancel_worker none m name wait inputs
          ≡ returned (erase name m, es))
        × (calls es ≤ 1)
  unfolding cancel_worker
  cancel_worker_lem m name w wait inputs v e =
      let (es, f, b) = cancel_ends wait w (inputs name) (Inv-find m name w v e).sound in
      (es, rw (e, f), b)

  -- A worker whose callback cancels the worker itself terminates the program.
  pub cancel_worker_self :
      (m : Manager D) (self : String) (w : Worker D) (wait : Bool) (inputs : Inputs)
      → find self m ≡ some w
      → joinable w.handle ≡ true
      → cancel_worker (some self) m self wait inputs ≡ aborted
  unfolding cancel_worker cancel stop destroy
  cancel_worker_self m self w wait inputs e j = rw (e, eq_refl self) (rw j)

  -- The effects are those of each worker's end, one after the other, which is what its destructor makes
  -- of it: at most one call of its callback.
  pub AtMostOnce : Inputs → Manager D → List (Effect D) → Type 0
  AtMostOnce inputs [] es = es ≡ []
  AtMostOnce inputs ((name, w) ∷ m) es =
      (fs : List (Effect D)) × (gs : List (Effect D)) × (es ≡ fs ++ gs)
      × (destroy other_thread w (inputs name) ≡ returned fs)
      × (calls fs ≤ 1)
      × AtMostOnce inputs m gs
