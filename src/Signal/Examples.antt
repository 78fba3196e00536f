-- ===== src/Signal/Examples.antt =====
-- The theorems on signals at a few handlers.
use any_node.Base.{ℕ, ◌≡◌, ◌≢◌, ◌⊎◌, true, Option, none, some, refl, arith, false, List, [], ◌∷◌}
use any_node.Base.Dict.{find, put}
use any_node.Signal.Defs.{
  Handler, initial, has_type, bind, unbind_signal, deliver, system_action, signaled,
}
use any_node.Signal.Refinement.{Op, binds, unbinds, spec_step, run, spec_run, spec_deliver}
use any_node.Signal.Ledger.{deliver-ledger}
use any_node.Signal.Faults.{deliver-bind-unbind_signal}
use any_node.Signal.Mutex as Mutex
use any_node.Signal.Mutex.Serial.{Serial, serial_lem}
use any_node.Signal.Mutex.Deadlock.{is_waiting, interrupted_lem, progress_lem}

abbrev node : Handler
node = record { type_name = 1; target = 10 }

abbrev other_node : Handler
other_node = record { type_name = 1; target = 11 }

abbrev logger : Handler
logger = record { type_name = 2; target = 20 }

abbrev history : List Op
history = binds 2 logger ∷ binds 2 node ∷ binds 15 node ∷ unbinds 2 node ∷ unbinds 15 node ∷ []

deliver-ledger_example : deliver (run initial history) 2 ≡ spec_deliver (logger ∷ [])
deliver-ledger_example = deliver-ledger history 2

deliver-bind-unbind_signal_example :
    let t = bind (unbind_signal (bind initial 2 node) 2) 2 logger in
    (deliver t 2 ≡ system_action) × (signaled t 2 ≡ logger ∷ [])
unfolding bind find put has_type
deliver-bind-unbind_signal_example =
    deliver-bind-unbind_signal (bind initial 2 node) 2 logger (node ∷ []) refl

no_node : (u : ℕ) → has_type node (spec_run (λ _. []) (binds 2 logger ∷ []) u) ≡ false
unfolding spec_run spec_step has_type
no_node u = ground arith

-- A handler is bound, and thread 0 is in the call that unbinds it when the signal comes.
abbrev unbinding : Mutex.Call
unbinding = Mutex.unbinds 2 node

abbrev asking : Mutex.System
asking = record (Mutex.start (bind initial 2 node)) {
  stacks = Mutex.update (λ _. []) 0 (Mutex.waiting unbinding ∷ []);
}

abbrev unlocked : Mutex.System
unlocked = record asking {
  holder = some 0;
  stacks =
      Mutex.update asking.stacks 0
        (Mutex.inside unbinding (Mutex.writes_of unbinding asking.signals) ∷ []);
}

asking-Reach : Mutex.Reach (Mutex.start (bind initial 2 node)) asking
asking-Reach = Mutex.next Mutex.here (Mutex.calls 0 unbinding refl refl)

unlocked-Reach : Mutex.Reach (Mutex.start (bind initial 2 node)) unlocked
unlocked-Reach = Mutex.next asking-Reach (Mutex.locks 0 unbinding [] refl refl refl)

-- Then thread 1 asks for the mutex.
abbrev later : Mutex.System
later = record (Mutex.interrupted unlocked 0 2) {
  stacks =
      Mutex.update (Mutex.interrupted unlocked 0 2).stacks 1 (Mutex.waiting (Mutex.clears 2) ∷ []);
}

later-Reach : Mutex.Reach (Mutex.interrupted unlocked 0 2) later
later-Reach = Mutex.next Mutex.here (Mutex.calls 1 (Mutex.clears 2) refl refl)

serial_lem_example :
    ((i : ℕ) → Mutex.insides (unlocked.stacks i) ≡ Mutex.holds (some 0) i)
    × Serial (bind initial 2 node) unlocked
serial_lem_example = serial_lem (bind initial 2 node) unlocked unlocked-Reach

interrupted_lem_example :
    Mutex.Step unlocked (Mutex.interrupted unlocked 0 2)
    × (later.holder ≡ some 0)
    × (later.log ≡ [])
    × (later.signals ≡ bind initial 2 node)
unfolding bind has_type find
interrupted_lem_example =
    interrupted_lem (bind initial 2 node) unlocked later 0 2 unbinding
      (Mutex.writes_of unbinding asking.signals) [] unlocked-Reach refl refl later-Reach

progress_lem_example :
    ((q : Mutex.System) × Mutex.Reach asking q × (q.holder ≢ none))
    ⊎ ((i : ℕ) × (◌≡◌ {A = Option ℕ} none (some i)) × (is_waiting (asking.stacks i) ≡ true))
progress_lem_example = progress_lem (bind initial 2 node) asking 0 asking-Reach refl
