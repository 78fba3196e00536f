-- ===== src/Manager/Mutex.antt =====
-- The manager's mutex, which a call keeps while it waits for a worker's thread, and workers whose
-- callbacks call the manager. (In `Defs` a call is one step, and a callback does not wait.)
pub mod Deadlock
pub mod Hold
use any_node.Base.{
  ◌≡◌, Bool, true, false, ◌&&◌, not, if◌then◌else◌, Option, none, some, List, [], ◌∷◌, ◌++◌, map,
}
use any_node.Base.Dict.{find, put, erase, string_eq}
use any_node.Double.{Double}
use any_node.Worker.{
  Worker, Effect, Input, Outcome, returned, Caller, own_thread, other_thread, Platform, Thread,
  no_thread, thread, once, calling, exited, joinable, turn, is_destructible,
}
use any_node.Manager.Defs.{Manager, Inputs, Client, caller_for}
use any_node.Manager.Calls as Calls
use any_node.Manager.Calls.{
  Call, adds, starts, starts_all, stops, stops_all, cancels, cancels_all, retimes_at, cleans,
  turns_at,
}
use Prim.Native.String.{String}
use text.Mathlib.Text.{◌==◌ as str_eq}

-- A call that stops workers: the workers that are still to be stopped, each with `wait`, those that
-- are then erased, and those that are then still to be asked whether they are destructible.
pub record Task : Type 0 where
  pub client : Client
  pub todo : List (String × Bool)
  pub erased : List String
  pub checks : List String

-- Where the thread that has the mutex is: at the next worker, or in `thread_.join()` for the thread
-- of a worker.
pub data Stage : Type 0 where
  next_worker : Task → Stage
  joining : String → Task → Stage

pub record System (D : Type 0) : Type 0 where
  pub manager : Manager D
  pub stage : Option Stage  -- none while no thread is in a call that stops workers
  pub asking : String → Bool  -- the worker's callback has called the manager, and is not back

abbrev pub start : {D : Type 0} → Manager D → System D
start m = record { manager = m; stage = none; asking = λ _. false }

abbrev pub set_asking : (String → Bool) → String → Bool → String → Bool
set_asking f name b j = if str_eq name j then b else f j

-- When its call returns, the worker's thread is in its callback again.
abbrev pub back : Client → (String → Bool) → String → Bool
back none f = f
back (some self) f = set_asking f self false

-- The thread that calls: not one of a worker, or that of one whose callback has called the manager.
abbrev pub may_call : Client → (String → Bool) → Bool
may_call none f = true
may_call (some self) f = f self

abbrev pub is_calling : Thread → Bool
is_calling (thread once) = true
is_calling (thread calling) = true
is_calling _ = false

abbrev pub is_other : Caller → Bool
is_other own_thread = false
is_other other_thread = true

abbrev pub names : {D : Type 0} → Manager D → List String
names m = map (λ entry. entry.0) m

abbrev pub with_wait : Bool → List String → List (String × Bool)
with_wait wait js = map (λ name. (name, wait)) js

module _ {D : Type 0} ⦃d : Double D⦄ where
  abbrev pub if_found : Option (Worker D) → Task → Task
  if_found none task = record task { todo = []; erased = [] }
  if_found (some w) task = task

  -- The workers that a call stops: `erase` and `clear` run the destructors, which stop with
  -- `wait = true`. None for the other calls.
  abbrev pub task_of : Client → Manager D → Call D → Option Task
  task_of c m (stops name wait) = some (
      if_found (find name m)
        record { client = c; todo = (name, wait) ∷ []; checks = []; erased = [] })
  task_of c m (stops_all wait) =
      some record { client = c; todo = with_wait wait (names m); checks = []; erased = [] }
  task_of c m (cancels name wait) = some (
      if_found (find name m) record {
        client = c;
        todo = (name, wait) ∷ (name, true) ∷ [];
        checks = [];
        erased = name ∷ [];
      })
  task_of c m (cancels_all wait) = some record {
    client = c;
    todo = with_wait wait (names m) ++ with_wait true (names m);
    checks = [];
    erased = names m;
  }
  task_of c m cleans = some record { client = c; todo = []; checks = names m; erased = [] }
  task_of c m _ = none

  abbrev pub is_brief : Call D → Bool
  is_brief (adds o autostart now moved) = true
  is_brief (starts name priority) = true
  is_brief starts_all = true
  is_brief (retimes_at name x) = true
  is_brief _ = false

  -- `isDestructible` of the next worker: one that is so is stopped and erased.
  abbrev pub after_check : String → Worker D → Task → Task
  after_check name w task =
      if is_destructible w
      then record task { todo = (name, true) ∷ []; erased = name ∷ [] }
      else task

  -- `Worker::stop`, up to `thread_.join()`.
  abbrev pub stopped : Worker D → Worker D
  stopped w = record w { running = false }

  abbrev pub joins : Client → String → Bool → Worker D → Bool
  joins c name wait w = is_other (caller_for c name) && (wait && joinable w.handle)

  abbrev pub is_released : Option (Worker D) → Bool
  is_released none = true
  is_released (some w) = not (joinable w.handle)

module _ {D : Type 0} ⦃d : Double D⦄ ⦃p : Platform⦄ where
  pub data Step (s : System D) (q : System D) : Type 0 where
    -- The worker's thread, while its callback is not in a call of the manager.
    turns :
        (name : String) (w : Worker D) (i : Input)
        → find name s.manager ≡ some w
        → s.asking name ≡ false
        → q ≡ record s { manager = put name (turn w i).0 s.manager }
        → Step s q
    -- The worker's callback calls a method of the manager.
    asks :
        (name : String) (w : Worker D)
        → find name s.manager ≡ some w
        → is_calling w.handle ≡ true
        → q ≡ record s { asking = set_asking s.asking name true }
        → Step s q
    -- A whole call that stops no worker.
    calls :
        (c : Client) (inputs : Inputs) (call : Call D) (m : Manager D) (es : List (Effect D))
        → s.stage ≡ none
        → may_call c s.asking ≡ true
        → is_brief call ≡ true
        → Calls.step c inputs s.manager call ≡ returned (m, es)
        → q ≡ record s { manager = m; asking = back c s.asking }
        → Step s q
    -- A call that stops workers locks the mutex.
    locks :
        (c : Client) (call : Call D) (task : Task)
        → s.stage ≡ none
        → may_call c s.asking ≡ true
        → task_of c s.manager call ≡ some task
        → q ≡ record s { stage = some (next_worker task) }
        → Step s q
    -- The loop over the map comes to the next worker.
    checks_one :
        (task : Task) (name : String) (rest : List String) (w : Worker D)
        → s.stage
          ≡ some (next_worker (record task { todo = []; erased = []; checks = name ∷ rest }))
        → find name s.manager ≡ some w
        → q ≡ record s {
          stage = some (
              next_worker
                (after_check name w (record task { todo = []; erased = []; checks = rest })));
        }
        → Step s q
    -- `stop` of the next worker, up to `thread_.join()`.
    stops_one :
        (task : Task) (name : String) (wait : Bool) (rest : List (String × Bool)) (w : Worker D)
        → s.stage ≡ some (next_worker (record task { todo = (name, wait) ∷ rest }))
        → find name s.manager ≡ some w
        → q ≡ record s {
          manager = put name (stopped w) s.manager;
          stage =
              let after = record task { todo = rest } in
              some
                (if joins task.client name wait w then joining name after else next_worker after);
        }
        → Step s q
    -- `thread_.join()` returns.
    joined :
        (task : Task) (name : String) (w : Worker D)
        → s.stage ≡ some (joining name task)
        → find name s.manager ≡ some w
        → w.handle ≡ thread exited
        → q ≡ record s {
          manager = put name (record w { handle = no_thread }) s.manager;
          stage = some (next_worker task);
        }
        → Step s q
    -- The next worker that was stopped is erased. Where its handle is still joinable, the program
    -- ends: no step.
    erases_one :
        (task : Task) (name : String) (rest : List String)
        → s.stage ≡ some (next_worker (record task { todo = []; erased = name ∷ rest }))
        → is_released (find name s.manager) ≡ true
        → q ≡ record s {
          manager = erase name s.manager;
          stage = some (next_worker (record task { todo = []; erased = rest }));
        }
        → Step s q
    -- The call returns, with the mutex unlocked.
    returns :
        (task : Task)
        → s.stage ≡ some (next_worker (record task { todo = []; erased = []; checks = [] }))
        → q ≡ record s { stage = none; asking = back task.client s.asking }
        → Step s q

  pub data Reach (s : System D) : System D → Type 0 where
    here : Reach s s
    next : {q r : System D} → Reach s q → Step q r → Reach s r
