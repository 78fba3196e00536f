-- ===== src/Worker/Examples.antt =====
-- The theorems on workers at a worker with a time step of a tenth of a second.
use any_node.Base.{ℕ, ◌*◌, ◌≡◌, refl, ◌≤◌, ◌<◌, arith, inl, true, false, List, [], ◌∷◌, ◌++◌}
use any_node.Base.Int.{pos, ◌*ℤ◌, negsuc, ◌+ℤ◌}
use any_node.Double.Rational.{Rational, frac, inf, rational_double}
use any_node.Rate
use any_node.Rate.Options.{rate_options}
use any_node.Rate.Timespec.{Timespec, IsNormal, nanos}
use any_node.Rate.Timespec.Laws.{rational-KeepsSign}
use any_node.Rate.Schedule.{max_ℤ}
use any_node.Worker.Options.{WorkerOptions, worker_options}
use any_node.Worker.Defs.{
  Worker, begin, thread, Input, Effect, returned, aborted, own_thread, other_thread, Platform,
  construct, turn, stop, start, destroy, event_at,
}
use any_node.Worker.Stop.{Waited, calls}
use any_node.Worker.Reach.{Reach, constructed, later, starts, Inv, Reach-Inv}
use any_node.Worker.Loop.{rounds, callback_schedule}
use any_node.Worker.Restart.{stop_returns, start_aborts, destroy_lem}
use any_node.Worker.Shared.{
  Shared, Reach as Reach_shared, starting, read, measured, called, update, initial, early_stamp,
}

abbrev at : ℕ → ℕ → Timespec
at s n = record { sec = pos s; nsec = pos n }

abbrev options : WorkerOptions Rational
options = worker_options "drive" (frac (pos 1) 9) 7 8 (pos 20) (negsuc 0)

abbrev single : WorkerOptions Rational
single = worker_options "once" (inf false) 7 8 (pos 0) (negsuc 0)

abbrev awaken : Input
awaken = record { verdict = true; now = at 5 250_000_000; later = at 5 260_000_000 }

abbrev on_time : Input
on_time = record { verdict = true; now = at 5 10_000_000; later = at 5 20_000_000 }

abbrev failing : Input
failing = record { verdict = false; now = at 5 30_000_000; later = at 5 120_000_000 }

instance abbrev linux : Platform
linux = record { cpu_setsize = pos 1024 }

abbrev fresh : Worker Rational
fresh = construct options (at 1 0)

abbrev running : Worker Rational
running = record fresh { running = true; done = false; handle = thread begin }

running-Reach : Reach options (at 1 0) running
unfolding construct start worker_options rate_options rational_double
running-Reach = later constructed (starts (pos 0) refl)

at-IsNormal : (s n : ℕ) → n < 1_000_000_000 → IsNormal (at s n)
at-IsNormal s n h = record { nonneg = omega arith; below = omega arith }

callback_schedule_example :
    let r = rounds (turn running on_time).0 ((on_time ∷ failing ∷ []) ++ awaken ∷ []) in
    (t : Timespec) × ((turn r.0 on_time).1 ≡ event_at r.0 t ∷ [])
    × (nanos t
        ≡ max_ℤ (nanos (at 5 10_000_000) +ℤ pos (3 * 100_000_000)) (nanos (at 5 260_000_000)))
unfolding construct worker_options rate_options rational_double Rate.construct Rate.reset
callback_schedule_example =
    callback_schedule rational-KeepsSign running on_time (on_time ∷ failing ∷ []) awaken on_time
      100_000_000 refl refl refl refl refl refl (at-IsNormal 5 10_000_000 (omega arith))
      (
        (at-IsNormal 5 10_000_000 (omega arith), at-IsNormal 5 20_000_000 (omega arith)),
        ((at-IsNormal 5 30_000_000 (omega arith), at-IsNormal 5 120_000_000 (omega arith)), tt),
      )
      (at-IsNormal 5 260_000_000 (omega arith))

stop_returns_example :
    (q : Worker Rational) × (es : List (Effect Rational)) × (stop other_thread true running
        (λ _. failing)
      ≡ returned (q, es))
    × Waited running q es
stop_returns_example = stop_returns running (λ _. failing) running-Reach

destroy_lem_example :
    (destroy own_thread running (λ _. failing) ≡ aborted)
    × ((es : List (Effect Rational)) × (destroy other_thread running (λ _. failing) ≡ returned es)
        × (calls es ≤ 1))
destroy_lem_example = destroy_lem running (λ _. failing) running-Reach refl

start_aborts_example :
    (q : Worker Rational) × (stop own_thread true running (λ _. failing) ≡ returned (q, []))
    × (start q (pos 0) ≡ aborted)
unfolding construct worker_options rate_options rational_double
start_aborts_example =
    start_aborts running own_thread true (λ _. failing) (pos 0) (inl refl) refl refl

Reach-Inv_example : Inv running
Reach-Inv_example = Reach-Inv running-Reach

abbrev waiting_once : Worker Rational
waiting_once = record (construct single (at 1 0)) { handle = thread begin; running = true }

-- Two workers start together: both read the clock, the second stores its reading, then the first, and
-- the second copies.
abbrev both_stored : Shared
both_stored = record {
  now = at 1 0;
  clock = nanos (at 2 0);
  spots =
      let both_read = update (update (λ _. starting) 0 (read (at 1 0))) 1 (read (at 2 0)) in
      update (update both_read 1 (measured (at 2 0))) 0 (measured (at 1 0));
}

abbrev second_called : Shared
second_called = record both_stored { spots = update both_stored.spots 1 (called (at 2 0) (at 1 0)) }

early_stamp_example :
    (q : Shared) × Reach_shared (initial (pos 0)) q × (q.spots 1 ≡ called (at 2 0) (at 1 0))
unfolding nanos ◌+ℤ◌ ◌*ℤ◌
early_stamp_example =
    early_stamp (initial (pos 0)) 0 1 (at 1 0) (at 2 0) refl refl refl (omega arith) (omega arith)
