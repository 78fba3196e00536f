-- ===== src/Publisher/Defs.antt =====
-- The class `ThreadedPublisher`: its methods, split where another thread can come between, and its
-- thread as a machine that takes one turn at a time.
use any_node.Base.{
  ℕ, zero, suc, ◌+◌, ◌-◌, ◌==◌, ltb, Bool, true, false, ◌&&◌, if◌then◌else◌, Option, none, some,
  List, [], ◌∷◌, ◌++◌, length,
}

-- Where the thread stands, or the one caller of `sendRos` of a class without a thread.
pub data Spot {ℓ} (M : Type ℓ) : Type ℓ where
  outside : Spot M  -- no thread, and no call of `sendRos`
  looping : Spot M  -- head of the loop in `threadedPublish`
  waiting : Spot M  -- at `notifyThreadCv_.wait`
  sending : Spot M  -- head of the loop in `sendRos`
  popping : Spot M  -- past its test of `shutdownRequested_`, before the lock
  holding : M → Spot M  -- between the two locks in `sendRos`
  ended : Spot M

pub record Publisher {ℓ} (M : Type ℓ) : Type ℓ where
  pub max_size : ℕ
  pub auto_publish : Bool
  pub buffer : List M
  pub notified : Bool
  pub shutdown_requested : Bool
  pub spot : Spot M
  pub pending : ℕ  -- calls of `notifyThread` that are still to come
  pub carried : List M  -- what other callers of `sendRos` have between its two locks
  pub joining : Bool  -- `shutdown` is at `thread_.join()`

-- What happens to a message, and the end of the ROS publisher. The thread takes and publishes; other
-- callers of `sendRos` grab and deliver.
pub data Event {ℓ} (M : Type ℓ) : Type ℓ where
  accepted discarded taken published grabbed delivered : M → Event M
  closed : Event M

infixl 5 ◌>>=◌
abbrev pub ◌>>=◌ {ℓ κ} : {A : Type ℓ} {B : Type κ} → Option A → (A → Option B) → Option B
none >>= f = none
some a >>= f = f a

-- The steps that any threads take, one after the other in any order. Any number of threads may be in
-- `sendRos` beside the publisher's own.
pub data Op {ℓ} (M : Type ℓ) : Type ℓ where
  adds : M → Op M
  delivers : ℕ → Op M
  notifies turns grabs shuts_down joins : Op M

module _ {ℓ} {M : Type ℓ} where
  unfoldable pub construct : ℕ → Bool → Publisher M
  construct max_size auto_publish = record {
    max_size = max_size;
    auto_publish = auto_publish;
    buffer = [];
    notified = false;
    shutdown_requested = false;
    spot = if auto_publish then looping else outside;
    pending = 0;
    carried = [];
    joining = false;
  }

  -- `push`, under the lock that the test holds too; `notifyThread` is a step of its own.
  abbrev pub push : Publisher M → List M → M → Publisher M
  push s rest m = record s { buffer = rest ++ m ∷ []; pending = s.pending + 1 }

  -- `pop` of an empty queue is undefined behaviour: none.
  abbrev pub replace_oldest : List M → Publisher M → M → Option (Publisher M × List (Event M))
  replace_oldest [] s m = none
  replace_oldest (oldest ∷ rest) s m = some (push s rest m, discarded oldest ∷ accepted m ∷ [])

  unfoldable pub add_message : Publisher M → M → Option (Publisher M × List (Event M))
  add_message s m =
      if length s.buffer == s.max_size
      then replace_oldest s.buffer s m
      else some (push s s.buffer m, accepted m ∷ [])

  unfoldable pub notify_thread : Publisher M → Publisher M
  notify_thread s =
      if ltb 0 s.pending then record s { notified = true; pending = s.pending - 1 } else s

  -- Where `sendRos` returns to.
  abbrev pub back : Bool → Spot M
  back auto_publish = if auto_publish then looping else outside

  abbrev pub take : List M → Publisher M → Publisher M × List (Event M)
  take [] s = (record s { spot = back s.auto_publish }, [])
  take (m ∷ rest) s = (record s { buffer = rest; spot = holding m }, taken m ∷ [])

  -- One turn of the thread, or of the call of `sendRos`.
  unfoldable pub turn_at : Spot M → Publisher M → Publisher M × List (Event M)
  turn_at outside s = (s, [])
  turn_at looping s = (record s { spot = if s.shutdown_requested then ended else waiting }, [])
  turn_at waiting s = (if s.notified then record s { notified = false; spot = sending } else s, [])
  turn_at sending s =
      if s.shutdown_requested
      then (record s { spot = back s.auto_publish }, [])
      else (record s { spot = popping }, [])
  turn_at popping s = take s.buffer s
  turn_at (holding m) s = (record s { spot = sending }, published m ∷ [])
  turn_at ended s = (s, [])

  unfoldable pub turn : Publisher M → Publisher M × List (Event M)
  turn s = turn_at s.spot s

  abbrev pub is_ended : Spot M → Bool
  is_ended ended = true
  is_ended _ = false

  -- The one call of `sendRos` of a publisher without a thread.
  unfoldable pub send_ros : Publisher M → Publisher M
  send_ros s = record s { spot = sending }

  -- Another caller of `sendRos`, which is past its test of `shutdownRequested_`, at the first lock; and
  -- one that has a message, at the second.
  abbrev pub grab : List M → Publisher M → Publisher M × List (Event M)
  grab [] s = (s, [])
  grab (m ∷ rest) s = (record s { buffer = rest; carried = s.carried ++ m ∷ [] }, grabbed m ∷ [])

  abbrev pub drop_at : ℕ → List M → List M
  drop_at n [] = []
  drop_at zero (m ∷ ms) = ms
  drop_at (suc n) (m ∷ ms) = m ∷ drop_at n ms

  abbrev pub deliver_at : ℕ → List M → List (Event M)
  deliver_at n [] = []
  deliver_at zero (m ∷ ms) = delivered m ∷ []
  deliver_at (suc n) (m ∷ ms) = deliver_at n ms

  -- shutdown(), up to the `join` if there is a thread. (Its test and its set of the flag are one step:
  -- two threads that call it at once are not modelled.)
  unfoldable pub shutdown : Publisher M → Publisher M × List (Event M)
  shutdown s =
      if s.shutdown_requested
      then (s, [])
      else if s.auto_publish
      then (record s { shutdown_requested = true; pending = s.pending + 1; joining = true }, [])
      else (s, closed ∷ [])

  -- shutdown(), from the `join` on.
  unfoldable pub joined : Publisher M → Publisher M × List (Event M)
  joined s =
      if s.joining && is_ended s.spot then (record s { joining = false }, closed ∷ []) else (s, [])

  unfoldable pub step : Publisher M → Op M → Option (Publisher M × List (Event M))
  step s (adds m) = add_message s m
  step s notifies = some (notify_thread s, [])
  step s turns = some (turn s)
  step s grabs = some (grab s.buffer s)
  step s (delivers n) = some (record s { carried = drop_at n s.carried }, deliver_at n s.carried)
  step s shuts_down = some (shutdown s)
  step s joins = some (joined s)

  unfoldable pub run : Publisher M → List (Op M) → Option (Publisher M × List (Event M))
  run s [] = some (s, [])
  run s (o ∷ os) = do r ← step s o; rest ← run r.0 os; some (rest.0, r.1 ++ rest.1)
