-- ===== src/Manager/Overloads.antt =====
-- The overloads of `addWorker` that make the options from their arguments. A callback is a member
-- function with its object, or a `WorkerCallback`: its number stands for either.
use any_node.Base.{ℕ, Bool, List}
use any_node.Base.Int.{ℤ}
use any_node.Double.{Double}
use any_node.Rate.Timespec.{Timespec}
use any_node.Worker.{Effect, Outcome, Platform}
use any_node.Worker.Options.{worker_options, no_reaction}
use any_node.Manager.Defs.{Manager, add_worker}
use Prim.Native.String.{String}

module _ {D : Type 0} ⦃d : Double D⦄ ⦃p : Platform⦄ where
  -- With a reaction to the failure of the callback.
  unfoldable pub add_reacting :
      Manager D
      → String
      → D
      → ℕ
      → ℕ
      → ℤ
      → Bool
      → ℤ
      → Timespec
      → Timespec
      → Outcome (Manager D × Bool × List (Effect D))
  add_reacting m name time_step callback reaction priority autostart affinity now moved =
      add_worker m (worker_options name time_step callback reaction priority affinity) autostart now
        moved

  unfoldable pub add_callback :
      Manager D
      → String
      → D
      → ℕ
      → ℤ
      → Bool
      → ℤ
      → Timespec
      → Timespec
      → Outcome (Manager D × Bool × List (Effect D))
  add_callback m name time_step callback priority autostart affinity now moved =
      add_worker m (worker_options name time_step callback no_reaction priority affinity) autostart
        now moved
