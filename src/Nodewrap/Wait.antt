-- ===== src/Nodewrap/Wait.antt =====
-- `run` and `stop` with the mutex and the condition variable between them, with calls of `stop` by any
-- threads; also by a signal, which calls it on top of what its thread is doing. (In `Defs` a test of
-- `running_` and a call of `stop` are one step each.)
pub mod Wakeup
pub mod Deadlock
pub mod Refines
use any_node.Base.{
  ℕ, suc, ◌==◌, ◌≡◌, Bool, true, false, if◌then◌else◌, Option, none, some, List, [], ◌∷◌,
}

-- Where the thread that calls `run` stands.
pub data Spot : Type 0 where
  entering : Spot  -- before it locks the mutex
  testing : Spot  -- before the test of `running_`, with the mutex
  asleep : Spot  -- in `wait`, without it
  ended : Spot

-- Where a call of `stop` stands.
pub data Stop : Type 0 where
  waiting : Stop  -- before it locks the mutex
  locked : Stop
  stored : Stop  -- before `notify_all`
  notified : Stop  -- before it unlocks the mutex

pub record System : Type 0 where
  pub running : Bool
  pub holder : Option ℕ  -- the thread that has the mutex
  pub spot : Spot
  pub woken : Bool  -- the thread that sleeps has been notified
  pub stops : ℕ → List Stop  -- the calls of `stop` of each thread, the innermost first

-- The thread that calls `run`.
abbrev pub main : ℕ
main = 0

abbrev pub start : Bool → System
start running = record {
  running = running;
  holder = none;
  spot = entering;
  woken = false;
  stops = λ _. [];
}

abbrev pub update : (ℕ → List Stop) → ℕ → List Stop → ℕ → List Stop
update f i xs j = if i == j then xs else f j

abbrev pub called : System → ℕ → System
called s i = record s { stops = update s.stops i (waiting ∷ s.stops i) }

pub data Step (s : System) (q : System) : Type 0 where
  enters :
      s.spot ≡ entering
      → s.stops main ≡ []
      → s.holder ≡ none
      → q ≡ record s { spot = testing; holder = some main }
      → Step s q
  sleeps :
      s.spot ≡ testing
      → s.stops main ≡ []
      → s.running ≡ true
      → q ≡ record s { spot = asleep; holder = none; woken = false }
      → Step s q
  leaves :
      s.spot ≡ testing
      → s.stops main ≡ []
      → s.running ≡ false
      → q ≡ record s { spot = ended; holder = none }
      → Step s q
  -- Also without a notification.
  wakes :
      s.spot ≡ asleep
      → s.stops main ≡ []
      → s.holder ≡ none
      → q ≡ record s { spot = testing; holder = some main }
      → Step s q
  calls : (i : ℕ) → q ≡ called s i → Step s q
  locks :
      (i : ℕ) (xs : List Stop)
      → s.stops i ≡ waiting ∷ xs
      → s.holder ≡ none
      → q ≡ record s { stops = update s.stops i (locked ∷ xs); holder = some i }
      → Step s q
  stores :
      (i : ℕ) (xs : List Stop)
      → s.stops i ≡ locked ∷ xs
      → q ≡ record s { stops = update s.stops i (stored ∷ xs); running = false }
      → Step s q
  notifies :
      (i : ℕ) (xs : List Stop)
      → s.stops i ≡ stored ∷ xs
      → q ≡ record s { stops = update s.stops i (notified ∷ xs); woken = true }
      → Step s q
  returns :
      (i : ℕ) (xs : List Stop)
      → s.stops i ≡ notified ∷ xs
      → q ≡ record s { stops = update s.stops i xs; holder = none }
      → Step s q

pub data Reach (s : System) : System → Type 0 where
  here : Reach s s
  next : {q r : System} → Reach s q → Step q r → Reach s r

-- How many of a thread's calls of `stop` have the mutex.
abbrev pub inside : List Stop → ℕ
inside [] = 0
inside (waiting ∷ xs) = inside xs
inside (_ ∷ xs) = suc (inside xs)

-- And whether `run` has it.
abbrev pub in_run : Spot → ℕ → ℕ
in_run testing i = if main == i then 1 else 0
in_run _ i = 0

abbrev pub holds : Option ℕ → ℕ → ℕ
holds none i = 0
holds (some j) i = if j == i then 1 else 0
