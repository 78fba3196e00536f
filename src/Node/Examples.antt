-- ===== src/Node/Examples.antt =====
-- The theorems on nodes at one that adds a worker in its `init`.
use any_node.Base.{ℕ, ◌≡◌, refl, true, false, List, [], ◌∷◌, none}
use any_node.Base.Int.{pos, negsuc}
use any_node.Base.Dict.{find, put}
use any_node.Double.Rational.{Rational, frac, rational_double}
use any_node.Rate
use any_node.Rate.Options.{rate_options}
use any_node.Rate.Timespec.{Timespec}
use any_node.Worker as Worker
use any_node.Worker.{Platform, Outcome, returned, start, turn, turn_at, schedule, stop}
use any_node.Worker.Options.{worker_options}
use any_node.Manager as Manager
use any_node.Manager.{Inputs}
use any_node.Nodewrap as Nodewrap
use any_node.Nodewrap.{Nodewrap, turns, gets}
use any_node.Signal.{Handler, initial}
use any_node.Node.Defs.{add_worker}
use any_node.Node.System.{
  adds, Event, System, Op, wraps, calls, construct, perform, perform_all, call, step, run,
  turns as turns_of,
}

instance abbrev linux : Platform
linux = record { cpu_setsize = pos 1024 }

abbrev at : ℕ → Timespec
at s = record { sec = pos s; nsec = pos 0 }

abbrev inputs : Inputs
inputs _ _ = record { verdict = true; now = at 3; later = at 3 }

abbrev handler : Handler
handler = record { type_name = 1; target = 10 }

abbrev start_up : List (Op Rational)
start_up =
    wraps inputs (turns true)
    ∷ calls none inputs (adds "drive" (frac (pos 1) 9) 7 (pos 20) (negsuc 0) (at 1) (at 1))
    ∷ calls none inputs (turns_of "drive" (inputs "drive" 0))
    ∷ wraps inputs (turns true)
    ∷ []

-- It stops while its `init` fails.
abbrev failing : List (Op Rational)
failing =
    wraps inputs (turns true)
    ∷ calls none inputs (adds "drive" (frac (pos 1) 9) 7 (pos 20) (negsuc 0) (at 1) (at 1))
    ∷ wraps inputs (turns false)
    ∷ wraps inputs (turns true)
    ∷ []

after_start_up :
    (s : System Rational) × (es : List (Event Rational)) × (run
        (construct handler true initial)
        start_up
      ≡ returned (s, es))
unfolding run step construct call perform_all perform add_worker Nodewrap.construct Nodewrap.step
    Nodewrap.turn_at Nodewrap.begin_init Nodewrap.end_init Manager.add_worker Manager.add_callback
    Worker.construct Worker.move Rate.construct Rate.reset Rate.move worker_options rate_options
    rational_double start schedule turn turn_at find put
after_start_up = (_, _, refl)

after_failing :
    (s : System Rational) × (es : List (Event Rational)) × (run
        (construct handler true initial)
        failing
      ≡ returned (s, es))
unfolding run step construct call perform_all perform add_worker Nodewrap.construct Nodewrap.step
    Nodewrap.turn_at Nodewrap.begin_init Nodewrap.end_init Nodewrap.begin_cleanup Manager.add_worker
    Manager.add_callback Worker.construct Worker.move Rate.construct Rate.reset Rate.move
    worker_options rate_options rational_double start schedule turn turn_at find put
after_failing = (_, _, refl)
