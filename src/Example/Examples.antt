-- ===== src/Example/Examples.antt =====
-- The theorem on `init` at a server with a negative time step.
use any_node.Base.{ℕ, ◌≡◌, refl, true, false, if◌then◌else◌, some, none, List, []}
use any_node.Base.Int.{pos, negsuc}
use any_node.Base.Dict.{find, string_eq}
use any_node.Double.Rational.{Rational, frac, rational_double}
use any_node.Rate.Timespec.{Timespec}
use any_node.Param.{Server, param}
use any_node.Worker.{Worker, Platform, returned}
use any_node.Worker.Options.{worker_options, no_reaction}
use any_node.Manager.{Manager}
use any_node.Topic.{is_deactivated}
use any_node.Example.Defs.{Event, init, worker_name}
use any_node.Example.Init.{handles, no_handles, init_lem}
use Prim.Native.String.{String}
use text.Mathlib.Text.{◌==◌ as str_eq}

instance abbrev linux : Platform
linux = record { cpu_setsize = pos 1024 }

abbrev at : ℕ → Timespec
at s = record { sec = pos s; nsec = pos 0 }

abbrev backwards : Server Rational
backwards = record {
  int_of = λ k. none;
  double_of = λ k. if str_eq k "time_step" then some (frac (negsuc 0) 0) else none;
  string_of = λ k. none;
  bool_of = λ k. none;
}

-- The worker is there, but does not run.
init_lem_example :
    (q : Manager Rational) × (w : Worker Rational) × (es : List (Event Rational Unit String))
    × (init backwards tt "udp" 7 [] (at 1) (at 2) ≡ returned (q, true, es))
    × (w.options ≡ worker_options worker_name (frac (negsuc 0) 0) 7 no_reaction (pos 10) (negsuc 0))
    × (w.running ≡ false)
    × ((j : String) → find j q ≡ (if str_eq worker_name j then some w else none))
    × (handles no_handles es ≡ record no_handles { subscriptions = 1 })
unfolding find param is_deactivated rational_double
init_lem_example = init_lem backwards tt "udp" 7 [] (at 1) (at 2) refl
