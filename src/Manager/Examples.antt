-- ===== src/Manager/Examples.antt =====
-- The theorems on the manager at one with a worker that runs and one that has not been started.
use any_node.Base.{
  ◌⊎◌, not, ◌&&◌, if◌then◌else◌, subst, Bool-cases, inl, inr, ℕ, ◌≡◌, refl, true, false, none, some,
  List, [], ◌∷◌,
}
use any_node.Base.Int.{pos, negsuc}
use any_node.Base.Dict.{string_eq, find, put, erase}
use any_node.Double.{literal}
use any_node.Double.Rational.{Rational, frac, rational_double}
use any_node.Rate
use any_node.Rate.Options.{rate_options}
use any_node.Rate.Timespec.{Timespec}
use any_node.Worker.{
  Worker, Effect, begin, calling, thread, construct, move, start, stop, turn, turn_at, turns, join,
  destroy, schedule, returned, Platform,
}
use any_node.Worker.Options.{WorkerOptions, worker_options}
use any_node.Worker.Reach.{Reach, Inv, Reach-Inv, construct-Inv, constructed, later, starts}
use any_node.Manager.Defs.{
  Manager, Inputs, add_worker, cancel_worker, cancel, stop_worker, stop_workers, start_worker,
  Client, clean_destructible_workers,
}
use any_node.Manager.Cancel.{AreSound}
use any_node.Manager.Calls.{
  Call, adds, turns_at, stops_all, starts, stops, cancels, step, run, run-IsGood,
}
use any_node.Manager.Calls.Entries.{IsGood}
use any_node.Manager.Mutex as Mutex
use any_node.Manager.Mutex.Deadlock.{deadlock_lem, stuck, no_more}
use any_node.Manager.Mutex.Hold.{Keeps, HasReturned, hold_lem}
use any_node.Manager.Order.{contents}
use any_node.Manager.Order.Steps.{order_lem}
use any_node.Manager.Lookup.{AreDistinct, surviving, clean_lem, add_worker_new}
use Prim.Native.String.{String}
use mathlib.Core.Quot
use text.Mathlib.TextEquality.{eq_iff}
use text.Mathlib.Text.{◌==◌ as str_eq}

abbrev at : ℕ → Timespec
at s = record { sec = pos s; nsec = pos 0 }

abbrev drive : WorkerOptions Rational
drive = worker_options "drive" (frac (pos 1) 9) 7 8 (pos 20) (negsuc 0)

abbrev backwards : WorkerOptions Rational
backwards = worker_options "backwards" (frac (negsuc 0) 0) 7 8 (pos 20) (negsuc 0)

instance abbrev linux : Platform
linux = record { cpu_setsize = pos 1024 }

abbrev running : Worker Rational
running = record (construct drive (at 1)) { running = true; done = false; handle = thread begin }

running-Reach : Reach drive (at 1) running
unfolding construct start worker_options rational_double
running-Reach = later constructed (starts (pos 0) refl)

running-Inv : Inv running
running-Inv = Reach-Inv running-Reach

abbrev idle : Worker Rational
idle = construct drive (at 1)

idle-Inv : Inv idle
idle-Inv = construct-Inv drive (at 1)

abbrev two : Manager Rational
two = ("drive", running) ∷ ("idle", idle) ∷ []

abbrev inputs : Inputs
inputs _ _ = record { verdict = false; now = at 2; later = at 2 }

two-AreSound : AreSound two
two-AreSound = (running-Inv, (idle-Inv, tt))

two-AreDistinct : AreDistinct two
unfolding find
two-AreDistinct = (refl, (refl, tt))

clean_lem_example :
    (q : Manager Rational) × (es : List (Effect Rational)) × (clean_destructible_workers none two
        inputs
      ≡ returned (q, es))
    × ((j : String) → find j q ≡ surviving (find j two))
clean_lem_example = clean_lem two inputs two-AreSound two-AreDistinct

abbrev calls_of : List (Client × Inputs × Call Rational)
calls_of =
    (none, inputs, adds drive true (at 1) (at 2))
    ∷ (none, inputs, adds backwards true (at 1) (at 2))
    ∷ (none, inputs, turns_at "drive" (inputs "drive" 0))
    ∷ (none, inputs, stops_all true)
    ∷ (none, inputs, starts "drive" (pos 5))
    ∷ (some "drive", inputs, stops "drive" true)
    ∷ (none, inputs, cancels "backwards" true)
    ∷ []

after_calls :
    (q : Manager Rational) × (es : List (Effect Rational)) × (run [] calls_of ≡ returned (q, es))
unfolding run step add_worker construct move Rate.construct Rate.reset Rate.move worker_options
    rate_options rational_double find put erase start turn turn_at stop_workers stop join turns
    start_worker stop_worker cancel_worker cancel destroy schedule
after_calls = (_, _, refl)

run-IsGood_example : IsGood after_calls.0
run-IsGood_example = run-IsGood calls_of after_calls.0 after_calls.1 after_calls.2

abbrev in_callback : Worker Rational
in_callback = record running { handle = thread calling }

abbrev two_calling : Manager Rational
two_calling = ("drive", in_callback) ∷ ("arm", in_callback) ∷ []

-- The other worker's callback calls the manager too.
abbrev both_asking : Mutex.System Rational
both_asking =
    let s = stuck two_calling "drive" in_callback in
    record s { asking = Mutex.set_asking s.asking "arm" true }

deadlock_lem_example :
    Mutex.Reach (Mutex.start two_calling) (stuck two_calling "drive" in_callback)
    × (both_asking.stage ≡ some (Mutex.joining "drive" no_more))
    × (both_asking.asking "drive" ≡ true)
    × (find "drive" both_asking.manager ≡ some (Mutex.stopped in_callback))
unfolding find put
deadlock_lem_example =
    deadlock_lem two_calling "drive" in_callback both_asking refl refl
      (Mutex.next Mutex.here (Mutex.asks "arm" in_callback refl refl refl))

hold_lem_example :
    Keeps none (stuck two_calling "drive" in_callback) both_asking
    ⊎ HasReturned (stuck two_calling "drive" in_callback) both_asking
unfolding find put
hold_lem_example =
    hold_lem (Mutex.joining "drive" no_more) (stuck two_calling "drive" in_callback) both_asking
      refl (Mutex.next Mutex.here (Mutex.asks "arm" in_callback refl refl refl))

add_worker_new_example :
    let refused = rational_double.lt backwards.rate_options.time_step (literal 0) in
    (q : Manager Rational) × (w : Worker Rational) × (es : List (Effect Rational)) × (add_worker two
        backwards true
        (at 3)
        (at 4)
      ≡ returned (q, not (true && refused), es))
    × (w.options ≡ backwards)
    × (w.running ≡ (true && not refused))
    × ((j : String)
        → find j q ≡ (if str_eq backwards.rate_options.name j then some w else find j two))
unfolding find worker_options
add_worker_new_example = add_worker_new two backwards true (at 3) (at 4) refl

-- The same workers in the other order.
abbrev reversed : Manager Rational
reversed = ("idle", idle) ∷ ("drive", running) ∷ []

reversed-IsGood : IsGood reversed
unfolding find
reversed-IsGood = record { sound = (idle-Inv, (running-Inv, tt)); distinct = (refl, (refl, tt)) }

reversed-two : contents two ≡ contents reversed
unfolding find
reversed-two = Quot.sound λ name. elim (Bool-cases (str_eq "drive" name)) [
  | inl b ↦ subst (λ x. find x two ≡ find x reversed) ((eq_iff "drive" name).0 b) refl
  | inr b ↦ simp b
]

abbrev calls_on_two : List (Client × Inputs × Call Rational)
calls_on_two =
    (none, inputs, stops_all true)
    ∷ (none, inputs, starts "idle" (pos 5))
    ∷ (some "idle", inputs, stops "idle" true)
    ∷ (none, inputs, cancels "drive" true)
    ∷ []

after_two :
    (q : Manager Rational) × (es : List (Effect Rational)) × (run two calls_on_two
      ≡ returned (q, es))
unfolding run step construct move Rate.construct Rate.reset Rate.move worker_options rate_options
    rational_double find put erase start turn turn_at stop_workers stop join turns start_worker
    stop_worker cancel_worker cancel destroy schedule
after_two = (_, _, refl)

order_lem_example :
    (r : Manager Rational) × (fs : List (Effect Rational)) × (run reversed calls_on_two
      ≡ returned (r, fs))
    × (contents after_two.0 ≡ contents r)
order_lem_example =
    order_lem (hlevel) calls_on_two two reversed after_two.0 after_two.1
      (record { sound = two-AreSound; distinct = two-AreDistinct }) reversed-IsGood reversed-two
      after_two.2
