-- ===== src/Node/Defs.antt =====
-- The class `Node`. Its handle is ROS's; the state that is its own is that of its manager.
use any_node.Base.{ℕ, Bool, true, List}
use any_node.Base.Int.{ℤ, pos, eqb_ℤ}
use any_node.Double.{Double}
use any_node.Rate.Timespec.{Timespec}
use any_node.Worker.{Effect, Outcome, Platform}
use any_node.Worker.Options.{WorkerOptions}
use any_node.Manager
use any_node.Manager.{Manager, Inputs, Client, Result, at_worker, stored}
use any_node.Nodewrap.{Nodewrap, on_signal}
use Prim.Native.String.{String}

module _ {D : Type 0} ⦃d : Double D⦄ where
  unfoldable pub has_worker : Manager D → String → Bool
  has_worker node name = Manager.has_worker node name

  unfoldable pub stop_worker : Client → Manager D → String → Bool → Inputs → Result D
  stop_worker c node name wait inputs = Manager.stop_worker c node name wait inputs

  unfoldable pub cancel_worker : Client → Manager D → String → Bool → Inputs → Result D
  cancel_worker c node name wait inputs = Manager.cancel_worker c node name wait inputs

  unfoldable pub stop_all_workers : Client → Manager D → Bool → Inputs → Result D
  stop_all_workers c node wait inputs = Manager.cancel_workers c node wait inputs

module _ {D : Type 0} ⦃d : Double D⦄ ⦃p : Platform⦄ where
  -- The overload with options.
  unfoldable pub add_options :
      Manager D
      → WorkerOptions D
      → Timespec
      → Timespec
      → Outcome (Manager D × Bool × List (Effect D))
  add_options node options now moved = Manager.add_worker node options true now moved

  -- The overload with a member function: its number stands for it and its object.
  unfoldable pub add_worker :
      Manager D
      → String
      → D
      → ℕ
      → ℤ
      → ℤ
      → Timespec
      → Timespec
      → Outcome (Manager D × Bool × List (Effect D))
  add_worker node name time_step callback priority affinity now moved =
      Manager.add_callback node name time_step callback priority true affinity now moved

  unfoldable pub start_worker : Manager D → String → Result D
  start_worker node name = Manager.start_worker node name (pos 0)

abbrev pub sigint : ℕ
sigint = 2

-- shutdown(): `raise(SIGINT)`, in the process that `Nodewrap` runs.
unfoldable pub shutdown : Nodewrap → Nodewrap
shutdown wrap = on_signal wrap sigint

-- By what `sched_setscheduler` returns.
unfoldable pub set_process_priority : ℤ → Bool
set_process_priority result = eqb_ℤ result (pos 0)
