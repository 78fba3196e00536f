-- ===== src/Node/System.antt =====
-- A node that `Nodewrap` runs, with the threads of its workers. What a call of the node's own
-- functions does to the workers comes as calls between the turns. A call is one step: that a callback
-- waits for the manager's mutex while a call joins its thread is left to Manager.Mutex.
use any_node.Base.{ℕ, Bool, true, if◌then◌else◌, List, [], ◌∷◌, ◌++◌, map, none}
use any_node.Base.Int.{ℤ}
use any_node.Double.{Double}
use any_node.Rate.Timespec.{Timespec}
use any_node.Worker as Worker
use any_node.Worker.{Input, Outcome, returned, ◌>>=◌, Platform, turn}
use any_node.Worker.Options.{WorkerOptions}
use any_node.Manager.{Manager, Inputs, Client, Result, at_worker, stored}
use any_node.Nodewrap as Nodewrap
use any_node.Nodewrap.{Nodewrap, Effect, stop_all_workers as stops_workers}
use any_node.Signal.{Handler, Signals}
use any_node.Node.Defs.{
  add_worker, add_options, start_worker, stop_worker, cancel_worker, stop_all_workers,
}
use Prim.Native.String.{String}

-- A call of a method of the node, or a turn of the thread of the worker of this name.
pub data Call (D : Type 0) : Type 0 where
  adds : String → D → ℕ → ℤ → ℤ → Timespec → Timespec → Call D
  adds_options : WorkerOptions D → Timespec → Timespec → Call D
  starts : String → Call D
  stops : String → Bool → Call D
  cancels : String → Bool → Call D
  stops_all : Bool → Call D
  turns : String → Input → Call D

-- What the system does to the outside, in its order.
pub data Event (D : Type 0) : Type 0 where
  node : Effect → Event D
  worker : Worker.Effect D → Event D

pub record System (D : Type 0) : Type 0 where
  pub wrap : Nodewrap
  pub manager : Manager D

-- A step of `execute`, of a call of `stop` or of a signal, or a call by a thread of the node; each
-- with what the workers are given while it waits for them.
pub data Op (D : Type 0) : Type 0 where
  wraps : Inputs → Nodewrap.Op → Op D
  calls : Client → Inputs → Call D → Op D

unfoldable pub construct : {D : Type 0} → Handler → Bool → Signals → System D
construct handler installed signals = record {
  wrap = Nodewrap.construct handler installed signals;
  manager = [];
}

module _ {D : Type 0} ⦃d : Double D⦄ where
  -- What the thread that is in `execute` calls.
  unfoldable pub perform : Inputs → Manager D → Effect → Outcome (Manager D × List (Event D))
  perform inputs m stops_workers = do
    r ← stop_all_workers none m true inputs
    returned (r.0, node stops_workers ∷ map worker r.1)
  perform inputs m effect = returned (m, node effect ∷ [])

  unfoldable pub perform_all :
      Inputs → Manager D → List Effect → Outcome (Manager D × List (Event D))
  perform_all inputs m [] = returned (m, [])
  perform_all inputs m (e ∷ es) = do
    r ← perform inputs m e
    rest ← perform_all inputs r.0 es
    returned (rest.0, r.1 ++ rest.1)

module _ {D : Type 0} ⦃d : Double D⦄ ⦃p : Platform⦄ where
  unfoldable pub call : Client → Inputs → Manager D → Call D → Result D
  call c inputs m (adds name time_step callback priority affinity now moved) = do
    r ← add_worker m name time_step callback priority affinity now moved
    returned (r.0, r.2)
  call c inputs m (adds_options options now moved) = do
    r ← add_options m options now moved
    returned (r.0, r.2)
  call c inputs m (starts name) = start_worker m name
  call c inputs m (stops name wait) = stop_worker c m name wait inputs
  call c inputs m (cancels name wait) = cancel_worker c m name wait inputs
  call c inputs m (stops_all wait) = stop_all_workers c m wait inputs
  call c inputs m (turns name i) = at_worker m name λ w. stored m name (returned (turn w i))

  unfoldable pub step : System D → Op D → Outcome (System D × List (Event D))
  step s (wraps inputs o) = do
    r ← perform_all inputs s.manager (Nodewrap.step s.wrap o).1
    returned (record { wrap = (Nodewrap.step s.wrap o).0; manager = r.0 }, r.1)
  step s (calls c inputs x) =
      if s.wrap.killed
      then returned (s, [])
      else do r ← call c inputs s.manager x; returned (record s { manager = r.0 }, map worker r.1)

  unfoldable pub run : System D → List (Op D) → Outcome (System D × List (Event D))
  run s [] = returned (s, [])
  run s (o ∷ os) = do r ← step s o; rest ← run r.0 os; returned (rest.0, r.1 ++ rest.1)
