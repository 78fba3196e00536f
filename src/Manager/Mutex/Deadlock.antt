-- ===== src/Manager/Mutex/Deadlock.antt =====
-- A callback that calls the manager while its worker is stopped.
use any_node.Base.{◌≡◌, refl, ap, arith, [], ◌∷◌, true, false, none, some}
use any_node.Base.Dict.{find, put, string_eq, find-put, find-put_self, beq_refl}
use any_node.Double.{Double}
use any_node.Worker.{Worker, Platform, Thread, no_thread, thread, joinable, turn}
use any_node.Manager.Defs.{Manager}
use any_node.Manager.Calls.{stops}
use any_node.Manager.Mutex.{
  start, stopped, set_asking, if_found, System, Task, joining, is_calling, Step, turns, asks, calls,
  locks, checks_one, stops_one, joined, erases_one, returns, Reach, here, next,
}
use Prim.Native.String.{String}
use text.Mathlib.TextEquality.{eq_iff}

is_calling-joinable : (t : Thread) → is_calling t ≡ true → joinable t ≡ true
is_calling-joinable no_thread c = c
is_calling-joinable (thread pc) c = refl

-- What is left of `stopWorker` once it joins.
abbrev pub no_more : Task
no_more = record { client = none; todo = []; checks = []; erased = [] }

module _ {D : Type 0} ⦃d : Double D⦄ ⦃p : Platform⦄ where
  -- The thread that has the mutex waits for the worker's thread, which waits for the mutex.
  record IsStuck (s : System D) (name : String) (task : Task) (w : Worker D) : Type 0 where
    stage : s.stage ≡ some (joining name task)
    asks : s.asking name ≡ true
    worker : find name s.manager ≡ some w

  Step-IsStuck :
      {q r : System D} (name : String) (task : Task) (w : Worker D)
      → is_calling w.handle ≡ true
      → Step q r
      → IsStuck q name task w
      → IsStuck r name task w
  Step-IsStuck {q} name task w c (turns j x i e a f) h =
      ground
        (arith, h.stage, h.asks, h.worker, eq_iff j name, find-put name j (turn x i).0 q.manager)
  Step-IsStuck name task w c (asks j x e a f) h = ground (arith, h.stage, h.asks, h.worker)
  Step-IsStuck name task w c (calls k inputs call m es e a b g f) h =
      absurd (ground (arith, h.stage))
  Step-IsStuck name task w c (locks k call t e a g f) h = absurd (ground (arith, h.stage))
  Step-IsStuck name task w c (checks_one t j rest x e g f) h = absurd (ground (arith, h.stage))
  Step-IsStuck name task w c (stops_one t j wait rest x e g f) h = absurd (ground (arith, h.stage))
  Step-IsStuck name task w c (joined t j x e g k f) h =
      absurd (ground (arith, h.stage, h.worker, c))
  Step-IsStuck name task w c (erases_one t j rest e g f) h = absurd (ground (arith, h.stage))
  Step-IsStuck name task w c (returns t e f) h = absurd (ground (arith, h.stage))

  Reach-IsStuck :
      {q r : System D} (name : String) (task : Task) (w : Worker D)
      → is_calling w.handle ≡ true
      → Reach q r
      → IsStuck q name task w
      → IsStuck r name task w
  Reach-IsStuck name task w c here h = h
  Reach-IsStuck name task w c (next r st) h =
      Step-IsStuck name task w c st (Reach-IsStuck name task w c r h)

  -- `stopWorker(name, true)`, by a thread of no worker, waits for the worker's thread, whose callback
  -- has called the manager.
  abbrev pub stuck : Manager D → String → Worker D → System D
  stuck m name w = record {
    manager = put name (stopped w) m;
    stage = some (joining name no_more);
    asking = set_asking (λ _. false) name true;
  }

  -- While a worker's thread is in its callback, another thread may call `stopWorker(name, true)` and
  -- the callback any method of the manager. From then on, whatever other threads do, the call waits in
  -- `join` and keeps the mutex, the callback waits for it, and the worker's thread stays where it is.
  pub deadlock_lem :
      (m : Manager D) (name : String) (w : Worker D) (q : System D)
      → find name m ≡ some w
      → is_calling w.handle ≡ true
      → Reach (stuck m name w) q
      → Reach (start m) (stuck m name w)
        × (q.stage ≡ some (joining name no_more))
        × (q.asking name ≡ true)
        × (find name q.manager ≡ some (stopped w))
  deadlock_lem m name w q e c r =
      let h = Reach-IsStuck name no_more (stopped w) c r record {
        stage = refl;
        asks = rw (beq_refl name);
        worker = find-put_self name (stopped w) m;
      } in
      (
        next
            (next
              (next here (
                locks none (stops name true) _ refl refl
                  (ap (λ o. some (if_found o record no_more { todo = (name, true) ∷ [] })) e) refl))
              (asks name w e c refl))
            (stops_one no_more name true [] w refl e (simp (is_calling-joinable w.handle c))),
        h.stage,
        h.asks,
        h.worker,
      )
