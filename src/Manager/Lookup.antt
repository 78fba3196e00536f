-- ===== src/Manager/Lookup.antt =====
-- What each method does to each name: the manager as a finite map from names to workers.
use any_node.Base.{
  subst, ◌≡◌, refl, ◌∙◌, ap, Bool, true, false, ◌&&◌, not, if◌then◌else◌, Option, none, some, List,
  [], ◌∷◌, ◌++◌, inl, inr, Bool-cases,
}
use any_node.Base.Int.{pos}
use any_node.Base.Dict.{find, string_eq, find-put}
use any_node.Double.{Double, literal}
use any_node.Rate.Timespec.{Timespec}
use any_node.Worker.{
  Worker, Effect, returned, Platform, start, construct, move, is_destructible, thread, begin, log,
  invalid_timestep, started, schedule,
}
use any_node.Manager.Cancel.{AreSound, destroy_waits}
use any_node.Worker.Options.{WorkerOptions}
use any_node.Manager.Defs.{Manager, Inputs, add_worker, add_to, clean_destructible_workers}
use Prim.Native.String.{String}
use text.Mathlib.Text.{◌==◌ as str_eq}
use text.Mathlib.TextEquality.{eq_iff}

-- The names are distinct, as in a map.
abbrev pub AreDistinct : {D : Type 0} → Manager D → Type 0
AreDistinct [] = Unit
AreDistinct ((name, w) ∷ m) = (find name m ≡ none) × AreDistinct m

module _ {D : Type 0} ⦃d : Double D⦄ where
  -- What of a worker is left by `cleanDestructibleWorkers`.
  abbrev pub surviving : Option (Worker D) → Option (Worker D)
  surviving none = none
  surviving (some w) = if is_destructible w then none else some w

  pub find_cleaned :
      (name j : String) (w : Worker D) (m q : Manager D)
      → find name m ≡ none
      → ((i : String) → find i q ≡ surviving (find i m))
      → is_destructible w ≡ true
      → find j q ≡ surviving (find j ((name, w) ∷ m))
  unfolding find
  find_cleaned name j w m q new rest b = elim (Bool-cases (str_eq name j)) [
    | inl e ↦
        rw (e, b)
          (subst (λ i. find i q ≡ none) ((eq_iff name j).0 e) (rest name ∙ ap surviving new))
    | inr e ↦ rw e (rest j)
  ]

  pub find_kept :
      (name j : String) (w : Worker D) (m q : Manager D)
      → ((i : String) → find i q ≡ surviving (find i m))
      → is_destructible w ≡ false
      → find j ((name, w) ∷ q) ≡ surviving (find j ((name, w) ∷ m))
  unfolding find
  find_kept name j w m q rest b = elim (Bool-cases (str_eq name j)) [
    | inl e ↦ rw (e, b)
    | inr e ↦ rw e (rest j)
  ]

  -- `cleanDestructibleWorkers`, called by no worker's own thread, returns, and removes the workers
  -- that are destructible and no others.
  pub clean_lem :
      (m : Manager D) (inputs : Inputs)
      → AreSound m
      → AreDistinct m
      → (q : Manager D) × (es : List (Effect D)) × (clean_destructible_workers none m inputs
          ≡ returned (q, es))
        × ((j : String) → find j q ≡ surviving (find j m))
  unfolding clean_destructible_workers find
  clean_lem [] inputs s v = ([], [], refl, λ j. refl)
  clean_lem ((name, w) ∷ m) inputs s v =
      let (q, es, e, rest) = clean_lem m inputs s.1 v.1 in
      elim (Bool-cases (is_destructible w)) [
        | inl b ↦
            let (fs, f, _) = destroy_waits w (inputs name) s.0.sound in
            (q, fs ++ es, rw (b, f, e), λ j. find_cleaned name j w m q v.0 rest b)
        | inr b ↦ ((name, w) ∷ q, es, rw (b, e), λ j. find_kept name j w m q rest b)
      ]

module _ {D : Type 0} ⦃d : Double D⦄ ⦃p : Platform⦄ where
  -- `addWorker` of a name that is new puts a worker with these options under it and leaves all
  -- other names alone. It does so even where it returns false: if it was to start the worker and
  -- the time step is negative. Otherwise it returns true, and the worker runs if it was to start.
  pub add_worker_new :
      (m : Manager D) (options : WorkerOptions D) (autostart : Bool) (now moved : Timespec)
      → find options.name m ≡ none
      → let refused = d.lt options.time_step (literal 0) in
        (q : Manager D) × (w : Worker D) × (es : List (Effect D)) × (add_worker m options autostart
            now moved
          ≡ returned (q, not (autostart && refused), es))
        × (w.options ≡ options)
        × (w.running ≡ (autostart && not refused))
        × ((j : String) → find j q ≡ (if str_eq options.name j then some w else find j m))
  unfolding add_worker construct move start
  add_worker_new m options false now moved e = (
    _,
    move (construct options now) moved,
    [],
    rw (e, add_to),
    refl,
    refl,
    λ j. find-put j options.name _ m,
  )
  add_worker_new m options true now moved e =
      elim (Bool-cases (d.lt options.time_step (literal 0))) [
        | inl r ↦ (
          _,
          record (move (construct options now) moved) { done = true },
          log invalid_timestep ∷ [],
          rw (e, add_to) (rw r),
          refl,
          rw r,
          λ j. find-put j options.name _ m,
        )
        | inr r ↦
            let fresh = move (construct options now) moved in
            (
              _,
              record fresh { running = true; done = false; handle = thread begin },
              schedule fresh (pos 0) ++ log started ∷ [],
              rw (e, add_to) (rw r),
              refl,
              rw r,
              λ j. find-put j options.name _ m,
            )
      ]

  -- A name that is taken is refused, and nothing changes, whatever became of its worker.
  pub add_worker_taken :
      (m : Manager D) (options : WorkerOptions D) (autostart : Bool) (now moved : Timespec)
      (w : Worker D)
      → find options.name m ≡ some w
      → add_worker m options autostart now moved ≡ returned (m, false, [])
  unfolding add_worker
  add_worker_taken m options autostart now moved w e = rw (e, add_to)
