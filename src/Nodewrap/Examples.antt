-- ===== src/Nodewrap/Examples.antt =====
-- The theorems on `Nodewrap` at small runs.
use any_node.Base.{ℕ, ◌+◌, ◌≡◌, refl, true, false, List, [], ◌∷◌, none, some}
use any_node.Base.Int.{pos, negsuc}
use any_node.Param.{get_uint32}
use any_node.Signal.{Handler, initial}
use any_node.Signal.Refinement as Signal
use any_node.Nodewrap.Defs.{
  Nodewrap, spinners, initializing, waiting, construct, Op, turns, stops, gets, execute,
}
use any_node.Nodewrap.Lifecycle.{effects_before, execute_order}
use any_node.Nodewrap.Wait as Wait
use any_node.Nodewrap.Wait.Wakeup.{returns_lem}
use any_node.Nodewrap.Wait.Refines.{view, all_ops, refines_lem}
use any_node.Nodewrap.Wait.Deadlock.{signal_lem}
use any_node.Base.{◌≢◌, ◌⊎◌}
use any_node.Nodewrap.Stopping.{quiet_turns, stop_lost}

abbrev node : Handler
node = record { type_name = 1; target = 10 }

abbrev logger : Handler
logger = record { type_name = 2; target = 20 }

abbrev whole : List Op
whole = turns true ∷ turns true ∷ turns true ∷ stops ∷ turns true ∷ turns true ∷ turns true ∷ []

execute_order_example :
    let r =
      execute (construct node true initial) (turns true ∷ gets 2 ∷ turns false ∷ turns true ∷ []) in
    r.1 ≡ effects_before r.0.phase
execute_order_example =
    execute_order node true initial (turns true ∷ gets 2 ∷ turns false ∷ turns true ∷ [])

abbrev before : List Signal.Op
before = Signal.binds 2 logger ∷ []

abbrev waits : Nodewrap
waits = record (construct node true initial) { phase = waiting; running = true }

stop_lost_example :
    let q =
      (execute
        (record waits { phase = initializing; running = false })
        (stops ∷ turns true ∷ quiet_turns (true ∷ true ∷ []))).0 in
    (q.phase ≡ waiting) × (q.running ≡ true)
unfolding construct
stop_lost_example =
    stop_lost (record waits { phase = initializing; running = false }) (true ∷ true ∷ []) refl refl

-- The server's number of spinners, unless it has none or a negative one, or the caller has one.
spinners_of :
    (spinners (some (pos 4)) (negsuc 0) ≡ pos 4)
    × (spinners none (negsuc 0) ≡ pos 2)
    × (spinners (some (negsuc 2)) (negsuc 0) ≡ pos 2)
    × (spinners (some (pos 4)) (pos 1) ≡ pos 1)
unfolding spinners get_uint32
spinners_of = (refl, refl, refl, refl)

-- `run` sleeps, and thread 1 calls `stop`.
abbrev stopped_asleep : Wait.System
stopped_asleep = record {
  running = false;
  holder = none;
  spot = Wait.asleep;
  woken = true;
  stops =
      let empty : ℕ → List Wait.Stop = λ _. [] in
      let called = Wait.update empty 1 (Wait.waiting ∷ []) in
      let locked = Wait.update called 1 (Wait.locked ∷ []) in
      let stored = Wait.update locked 1 (Wait.stored ∷ []) in
      let notified = Wait.update stored 1 (Wait.notified ∷ []) in Wait.update notified 1 [];
}

stopped_asleep-Reach : Wait.Reach (Wait.start true) stopped_asleep
stopped_asleep-Reach =
    Wait.next
      (Wait.next
        (Wait.next
          (Wait.next
            (Wait.next
              (Wait.next (Wait.next Wait.here (Wait.enters refl refl refl refl))
                (Wait.sleeps refl refl refl refl))
              (Wait.calls 1 refl))
            (Wait.locks 1 [] refl refl refl))
          (Wait.stores 1 [] refl refl))
        (Wait.notifies 1 [] refl refl))
      (Wait.returns 1 [] refl refl)

returns_lem_example :
    ((stopped_asleep.spot ≢ Wait.asleep) ⊎ (stopped_asleep.woken ≡ true))
    × ((q : Wait.System) × Wait.Reach stopped_asleep q × (q.spot ≡ Wait.ended))
returns_lem_example = returns_lem true stopped_asleep stopped_asleep-Reach refl refl refl

refines_lem_example :
    ((i : ℕ) → Wait.inside (stopped_asleep.stops i) + Wait.in_run stopped_asleep.spot i ≡ 0)
    × (execute waits (all_ops stopped_asleep-Reach) ≡ (view waits stopped_asleep, []))
unfolding construct
refines_lem_example = refines_lem waits stopped_asleep refl refl stopped_asleep-Reach

-- A signal while `run` tests `running_`.
abbrev in_test : Wait.System
in_test = record (Wait.start true) { spot = Wait.testing; holder = some 0 }

signal_lem_example :
    Wait.Step in_test (Wait.called in_test 0)
    × ((Wait.called in_test 0).holder ≡ some 0)
    × ((Wait.called in_test 0).running ≡ in_test.running)
    × ((Wait.called in_test 0).spot ≡ in_test.spot)
signal_lem_example =
    signal_lem true in_test (Wait.called in_test 0) 0
      (Wait.next Wait.here (Wait.enters refl refl refl refl)) refl Wait.here
