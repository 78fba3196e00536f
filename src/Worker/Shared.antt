-- ===== src/Worker/Shared.antt =====
-- Workers that run once, together: `Worker::run` reads the clock into a static variable, which all
-- workers share, and copies it into the callback's event. (`Defs` has one worker's thread, which is
-- given its time stamp. The two numbers of a reading are stored and copied together.)
use any_node.Base.{ℕ, ◌==◌, ◌≡◌, refl, ◌≢◌, ◌⊎◌, arith, false, if◌then◌else◌, Option, none, some}
use any_node.Base.Int.{ℤ, ◌≤ℤ◌}
use any_node.Rate.Timespec.{Timespec, zero_time, nanos}

-- Where the thread of a worker with an infinite time step stands.
pub data Spot : Type 0 where
  starting : Spot  -- before `clock_gettime`
  read : Timespec → Spot  -- in `clock_gettime`, which has the reading and is to store it
  measured : Timespec → Spot  -- before the call of the callback, with what it has read
  called : Timespec → Timespec → Spot  -- what it has read, and the time stamp of its event

pub record Shared : Type 0 where
  pub now : Timespec  -- the static variable
  pub clock : ℤ  -- the last reading of CLOCK_MONOTONIC
  pub spots : ℕ → Spot

abbrev pub update : (ℕ → Spot) → ℕ → Spot → ℕ → Spot
update f i p j = if i == j then p else f j

abbrev pub initial : ℤ → Shared
initial clock = record { now = zero_time; clock = clock; spots = λ _. starting }

-- The readings of the clock do not decrease.
pub data Step (s : Shared) (q : Shared) : Type 0 where
  reads :
      (i : ℕ) (t : Timespec)
      → s.spots i ≡ starting
      → s.clock ≤ℤ nanos t
      → q ≡ record s { clock = nanos t; spots = update s.spots i (read t) }
      → Step s q
  stores :
      (i : ℕ) (t : Timespec)
      → s.spots i ≡ read t
      → q ≡ record s { now = t; spots = update s.spots i (measured t) }
      → Step s q
  copies :
      (i : ℕ) (t : Timespec)
      → s.spots i ≡ measured t
      → q ≡ record s { spots = update s.spots i (called t s.now) }
      → Step s q

pub data Reach (s : Shared) : Shared → Type 0 where
  here : Reach s s
  next : {q r : Shared} → Reach s q → Step q r → Reach s r

-- What a thread has read.
abbrev pub reading : Spot → Option Timespec
reading starting = none
reading (read t) = some t
reading (measured t) = some t
reading (called t u) = some t

-- The thread's own reading or that of another thread.
abbrev pub IsReading : (ℕ → Spot) → ℕ → Timespec → Timespec → Type 0
IsReading f i t u = (u ≡ t) ⊎ ((j : ℕ) × (i ≢ j) × (reading (f j) ≡ some u))

record Inv (clock : ℤ) (s : Shared) : Type 0 where
  begun : clock ≤ℤ s.clock
  bound : (i : ℕ) (t : Timespec) → reading (s.spots i) ≡ some t → clock ≤ℤ nanos t
  source : (i : ℕ) (t : Timespec) → s.spots i ≡ measured t → IsReading s.spots i t s.now
  given : (i : ℕ) (t u : Timespec) → s.spots i ≡ called t u → IsReading s.spots i t u

-- Whenever two of them are about to start: for any reading of the one and a reading of the other that
-- is not before it, the other's callback may be given the first reading for its own.
pub early_stamp :
    (s : Shared) (i j : ℕ) (t u : Timespec)
    → (i == j) ≡ false
    → s.spots i ≡ starting
    → s.spots j ≡ starting
    → s.clock ≤ℤ nanos t
    → nanos t ≤ℤ nanos u
    → (q : Shared) × Reach s q × (q.spots j ≡ called u t)
early_stamp s i j t u n a b l m = (
  _,
  next
      (next
        (next (next (next here (reads i t a l refl)) (reads j u (ground arith) m refl))
          (stores j u (ground arith) refl))
        (stores i t (ground arith) refl))
      (copies j u (ground arith) refl),
  ground arith,
)
