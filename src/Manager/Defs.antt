-- ===== src/Manager/Defs.antt =====
-- The class `WorkerManager`. A call is one step (`Mutex` has the mutex); the threads of the workers
-- take turns between the calls (`Worker.Reach`), and inside one where it waits for them.
use any_node.Base.{ℕ, Bool, true, false, if◌then◌else◌, Option, none, some, List, [], ◌∷◌, ◌++◌}
use any_node.Base.Int.{ℤ, pos}
use any_node.Base.Dict.{find, put, erase, string_eq}
use any_node.Double.{Double}
use any_node.Rate.Timespec.{Timespec}
use any_node.Worker.{
  construct, move, stop, start, destroy, set_timestep, is_destructible, Worker, Effect, Input,
  Outcome, returned, ◌>>=◌, Caller, own_thread, other_thread, Platform,
}
use any_node.Worker.Options.{WorkerOptions}
use Prim.Native.String.{String}
use text.Mathlib.Text.{◌==◌ as str_eq}

-- `workers_`. The order of an `unordered_map` is not specified: it is that of the list here.
abbrev pub Manager : Type 0 → Type 0
Manager D = List (String × Worker D)

-- What the worker of each name is given while it is waited for.
abbrev pub Inputs : Type 0
Inputs = String → ℕ → Input

-- The thread that calls: that of the worker of this name, or none of them.
abbrev pub Client : Type 0
Client = Option String

abbrev pub caller_for : Client → String → Caller
caller_for none name = other_thread
caller_for (some self) name = if str_eq self name then own_thread else other_thread

abbrev pub Result : Type 0 → Type 0
Result D = Outcome (Manager D × List (Effect D))

module _ {D : Type 0} ⦃d : Double D⦄ where
  -- Each method with a name looks its worker up, and does nothing if there is none.
  abbrev pub at_worker : Manager D → String → (Worker D → Result D) → Result D
  at_worker m name f = on_found (find name m)
    where
      on_found : Option (Worker D) → Result D
      on_found none = returned (m, [])
      on_found (some w) = f w

  abbrev pub stored : Manager D → String → Outcome (Worker D × List (Effect D)) → Result D
  stored m name out = do r ← out; returned (put name r.0 m, r.1)

  unfoldable pub stop_worker : Client → Manager D → String → Bool → Inputs → Result D
  stop_worker c m name wait inputs =
      at_worker m name λ w. stored m name (stop (caller_for c name) wait w (inputs name))

  unfoldable pub stop_workers : Client → Manager D → Bool → Inputs → Result D
  stop_workers c [] wait inputs = returned ([], [])
  stop_workers c ((name, w) ∷ m) wait inputs = do
    r ← stop (caller_for c name) wait w (inputs name)
    rest ← stop_workers c m wait inputs
    returned ((name, r.0) ∷ rest.0, r.1 ++ rest.1)

  unfoldable pub has_worker : Manager D → String → Bool
  has_worker m name = elim (find name m) [ none ↦ false | some w ↦ true ]

  -- `stop`, then the destructor, which `erase` runs.
  unfoldable pub cancel : Caller → Bool → Worker D → (ℕ → Input) → Outcome (List (Effect D))
  cancel who wait w inputs = do
    r ← stop who wait w inputs
    es ← destroy who r.0 inputs
    returned (r.1 ++ es)

  unfoldable pub cancel_worker : Client → Manager D → String → Bool → Inputs → Result D
  cancel_worker c m name wait inputs =
      at_worker m name
        λ w. do es ← cancel (caller_for c name) wait w (inputs name); returned (erase name m, es)

  -- `clear`: the destructor of each worker.
  unfoldable pub clear : Client → Manager D → Inputs → Outcome (List (Effect D))
  clear c [] inputs = returned []
  clear c ((name, w) ∷ m) inputs = do
    es ← destroy (caller_for c name) w (inputs name)
    fs ← clear c m inputs
    returned (es ++ fs)

  -- Also the manager's destructor, at `wait = true`.
  unfoldable pub cancel_workers : Client → Manager D → Bool → Inputs → Result D
  cancel_workers c m wait inputs = do
    r ← stop_workers c m wait inputs
    es ← clear c r.0 inputs
    returned ([], r.1 ++ es)

  unfoldable pub set_worker_timestep : Manager D → String → D → Result D
  set_worker_timestep m name x = at_worker m name λ w. stored m name (returned (set_timestep w x))

  -- One round of the loop, before what the rounds after it give.
  abbrev pub clean_one : Bool → Client → String → Worker D → Inputs → Result D → Result D
  clean_one true c name w inputs after = do
    es ← destroy (caller_for c name) w (inputs name)
    rest ← after
    returned (rest.0, es ++ rest.1)
  clean_one false c name w inputs after = do rest ← after; returned ((name, w) ∷ rest.0, rest.1)

  unfoldable pub clean_destructible_workers : Client → Manager D → Inputs → Result D
  clean_destructible_workers c [] inputs = returned ([], [])
  clean_destructible_workers c ((name, w) ∷ m) inputs =
      clean_one (is_destructible w) c name w inputs (clean_destructible_workers c m inputs)

module _ {D : Type 0} ⦃d : Double D⦄ ⦃p : Platform⦄ where
  abbrev pub add_new :
      Manager D → String → Worker D → Bool → Outcome (Manager D × Bool × List (Effect D))
  add_new m name fresh false = returned (put name fresh m, true, [])
  add_new m name fresh true = do r ← start fresh (pos 0); returned (put name r.0 m, r.1, r.2)

  abbrev pub add_to :
      Option (Worker D)
      → Manager D
      → String
      → Worker D
      → Bool
      → Outcome (Manager D × Bool × List (Effect D))
  add_to none m name fresh autostart = add_new m name fresh autostart
  add_to (some w) m name fresh autostart = returned (m, false, [])

  -- The worker is constructed before the map is asked, and moved into it if its name is new; the
  -- two clock readings are those of the two constructors.
  unfoldable pub add_worker :
      Manager D
      → WorkerOptions D
      → Bool
      → Timespec
      → Timespec
      → Outcome (Manager D × Bool × List (Effect D))
  add_worker m options autostart now moved =
      let fresh = move (construct options now) moved in
      add_to (find options.name m) m options.name fresh autostart

  abbrev pub start_unless_aborted : Worker D → ℤ → Outcome (Worker D × List (Effect D))
  start_unless_aborted w priority = do r ← start w priority; returned (r.0, r.2)

  unfoldable pub start_worker : Manager D → String → ℤ → Result D
  start_worker m name priority =
      at_worker m name λ w. stored m name (start_unless_aborted w priority)

  unfoldable pub start_workers : Manager D → Result D
  start_workers [] = returned ([], [])
  start_workers ((name, w) ∷ m) = do
    r ← start_unless_aborted w (pos 0)
    rest ← start_workers m
    returned ((name, r.0) ∷ rest.0, r.1 ++ rest.1)
