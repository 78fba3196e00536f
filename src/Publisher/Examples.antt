-- ===== src/Publisher/Examples.antt =====
-- The theorems on publishers at small runs.
use any_node.Base.{ℕ, ◌≤◌, ◌≡◌, refl, arith, true, false, some, List, [], ◌∷◌, ◌++◌, length}
use any_node.Publisher.Defs.{
  Publisher, waiting, holding, outside, ended, Event, closed, Op, adds, notifies, turns, shuts_down,
  joins, construct, add_message, notify_thread, turn, turn_at, shutdown, joined, step, run,
}
use any_node.Publisher.Events.{accepted_in, left_in, taken_in, published_in}
use any_node.Publisher.Order.{held, run_lem}
use any_node.Publisher.Wakeup.{asleep_lem}
use any_node.Publisher.Draining.{drains_lem}
use any_node.Publisher.Ending.{thread_turns, shutdown_lem}

abbrev crowded : List (Op ℕ)
crowded =
    adds 1
    ∷ notifies
    ∷ adds 2
    ∷ turns
    ∷ turns
    ∷ adds 3
    ∷ turns
    ∷ adds 4
    ∷ shuts_down
    ∷ turns
    ∷ joins
    ∷ []

run_lem_example :
    (q : Publisher ℕ) × (es : List (Event ℕ)) × (run (construct 2 true) crowded ≡ some (q, es))
    × (length q.buffer ≤ 2)
    × (left_in es ++ q.buffer ≡ accepted_in es)
    × (published_in es ++ held q.spot ≡ taken_in es)
run_lem_example = run_lem 2 true crowded (omega arith)

abbrev calm : List (Op ℕ)
calm = adds 1 ∷ turns ∷ notifies ∷ turns ∷ turns ∷ turns ∷ turns ∷ turns ∷ turns ∷ turns ∷ []

after_calm :
    (q : Publisher ℕ) × (es : List (Event ℕ)) × (run (construct 2 true) calm ≡ some (q, es))
unfolding run step construct add_message notify_thread turn turn_at
after_calm = (_, _, refl)

asleep_lem_example : (after_calm.0.buffer ≡ []) × (after_calm.0.shutdown_requested ≡ false)
unfolding after_calm
asleep_lem_example = asleep_lem 2 calm after_calm.0 after_calm.1 after_calm.2 refl refl refl

abbrev busy : Publisher ℕ
busy = record {
  max_size = 3;
  auto_publish = true;
  buffer = 5 ∷ 6 ∷ [];
  notified = false;
  shutdown_requested = false;
  spot = holding 4;
  pending = 0;
  carried = [];
  joining = false;
}

abbrev manual : Publisher ℕ
manual = record busy { auto_publish = false; spot = outside }

shutdown_lem_example :
    let r = thread_turns 4 (notify_thread (shutdown busy).0) in
    (r.0.spot ≡ ended)
    × (◌≡◌ {A = List ℕ} (5 ∷ 6 ∷ []) r.0.buffer)
    × (published_in r.1 ≡ 4 ∷ [])
    × ((joined r.0).1 ≡ closed ∷ [])
unfolding held
shutdown_lem_example = shutdown_lem busy refl refl refl

-- The thread holds a message, and one is in the buffer.
abbrev loaded : List (Op ℕ)
loaded = adds 1 ∷ notifies ∷ turns ∷ turns ∷ turns ∷ turns ∷ adds 2 ∷ notifies ∷ []

after_loaded :
    (q : Publisher ℕ) × (es : List (Event ℕ)) × (run (construct 2 true) loaded ≡ some (q, es))
unfolding run step construct add_message notify_thread turn turn_at
after_loaded = (_, _, refl)

drains_lem_example :
    (k : ℕ) × (k ≤ 13)
    × ((thread_turns k after_loaded.0).0.spot ≡ waiting)
    × ((thread_turns k after_loaded.0).0.buffer ≡ [])
    × (published_in (after_loaded.1 ++ (thread_turns k after_loaded.0).1) ≡ 1 ∷ 2 ∷ [])
unfolding after_loaded taken_in
drains_lem_example =
    drains_lem 2 loaded after_loaded.0 after_loaded.1 (omega arith) after_loaded.2 refl refl
