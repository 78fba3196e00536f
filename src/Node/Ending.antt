-- ===== src/Node/Ending.antt =====
-- How a node ends: its workers first, then its own `cleanup`.
use any_node.Base.{◌≡◌, Bool, true, List, [], ◌∷◌, ◌++◌, map}
use any_node.Double.{Double}
use any_node.Worker.{returned, Platform}
use any_node.Worker as Worker
use any_node.Manager.{Manager, Inputs}
use any_node.Manager.Cancel.{AtMostOnce}
use any_node.Nodewrap as Nodewrap
use any_node.Nodewrap.{
  Nodewrap, Phase, finished, Effect, turns, gets, pre_cleanup, stop_all_workers as stops_workers,
  stop_spinner, cleanup_node, stop,
}
use any_node.Node.Defs.{stop_all_workers}
use any_node.Node.System.{Event, node, worker, System, wraps, step, run}

abbrev ending : List Effect
ending = stops_workers ∷ stop_spinner ∷ cleanup_node ∷ []

module _ {D : Type 0} ⦃d : Double D⦄ where
  -- The events of `cleanup` after the node's `preCleanup`, with what its workers do on the way.
  abbrev pub stop_events : List (Worker.Effect D) → List (Event D)
  stop_events es =
      node stops_workers ∷ (map worker es ++ node stop_spinner ∷ node cleanup_node ∷ [])

module _ {D : Type 0} ⦃d : Double D⦄ ⦃p : Platform⦄ where
  abbrev CleansUp : System D → Inputs → Bool → Bool → List (Worker.Effect D) → Nodewrap → Type 0
  CleansUp s inputs result ok fs w =
      step (record s { wrap = w }) (wraps inputs (turns ok))
      ≡ returned
          (record { wrap = record w { phase = finished result }; manager = [] }, stop_events fs)

  abbrev Finishes : Manager D → Inputs → Bool → Bool → Bool → Nodewrap → Type 0
  Finishes m inputs a b c w =
      (v : Nodewrap) × (fs : List (Worker.Effect D)) × (run (record { wrap = stop w; manager = m })
          (wraps inputs (turns a) ∷ wraps inputs (turns b) ∷ wraps inputs (turns c) ∷ [])
        ≡ returned (record { wrap = v; manager = [] }, node pre_cleanup ∷ stop_events fs))
      × (v.phase ≡ finished true)
      × AtMostOnce inputs m fs
