-- ===== src/Example/Defs.antt =====
-- any_node_example/src/ExampleNode.cpp and any_node_example/src/any_node_example_node.cpp. ROS keeps a
-- publisher or a subscriber open as long as an object that `advertise` or `subscribe` returned, or a
-- copy of it, lives.
use any_node.Base.{
  ℕ, Bool, true, false, not, if◌then◌else◌, List, [], ◌∷◌, ◌++◌, map, Option, none, some,
}
use any_node.Base.Int.{ℤ, pos, negsuc}
use any_node.Double.{Double, literal}
use any_node.Rate.Timespec.{Timespec}
use any_node.Param.{Server, param}
use any_node.Worker as Worker
use any_node.Worker.{Outcome, returned, ◌>>=◌, Platform}
use any_node.Manager.{Manager}
use any_node.Node.{add_worker}
use any_node.Nodewrap.{Phase, finished}
use any_node.Topic.{Publication, Subscription}
use any_node.Topic.Forward as Node
use Prim.Native.String.{String}

pub data Log : Type 0 where
  init_called cleanup_called update_called pre_cleanup_called : Log
  received_message : String → Log

pub data Event (D F H : Type 0) : Type 0 where
  worker : Worker.Effect D → Event D F H
  advertises unadvertises : Publication → Event D F H
  subscribes unsubscribes : Subscription F H → Event D F H
  log : Log → Event D F H

-- The constants of `init`.
abbrev pub worker_name : String
worker_name = "exampleNode::updateWorker"

abbrev pub default_worker_time_step : {D : Type 0} ⦃d : Double D⦄ → D
default_worker_time_step = literal 3

abbrev pub priority : ℤ
priority = pos 10

abbrev pub default_queue_size : ℕ
default_queue_size = 1

-- An empty subscriber is closed by nothing.
abbrev pub opened : {D F H : Type 0} → Option (Subscription F H) → List (Event D F H)
opened none = []
opened (some s) = subscribes s ∷ []

abbrev pub closed : {D F H : Type 0} → Option (Subscription F H) → List (Event D F H)
closed none = []
closed (some s) = unsubscribes s ∷ []

-- `my_publisher` and `my_subscriber` are local, so that they are destroyed on return, the later one
-- first.
abbrev pub in_scope :
    {D F H : Type 0} → Publication → Option (Subscription F H) → List (Event D F H)
in_scope my_publisher my_subscriber =
    advertises my_publisher ∷ opened my_subscriber
    ++ log init_called ∷ closed my_subscriber
    ++ unadvertises my_publisher ∷ []

module _ {D F H : Type 0} ⦃d : Double D⦄ ⦃p : Platform⦄ where
  -- What `addWorker` returns is not used.
  unfoldable pub init :
      Server D
      → F
      → H
      → ℕ
      → Manager D
      → Timespec
      → Timespec
      → Outcome (Manager D × Bool × List (Event D F H))
  unfolding param
  init server subscriber_callback hints update node now moved = do
    let worker_time_step = param (server.double_of "time_step") default_worker_time_step
    r ← add_worker node worker_name worker_time_step update priority (negsuc 0) now moved
    let my_publisher =
        Node.advertise server "my_publisher_name" "/default_publisher_topic" default_queue_size
          false
    let my_subscriber =
        Node.subscribe server "my_subscriber_name" "/default_subscriber_topic" default_queue_size
          subscriber_callback hints
    returned (r.0, true, map worker r.2 ++ in_scope my_publisher my_subscriber)

-- The worker's callback.
abbrev pub update : Bool × List Log
update = (true, update_called ∷ [])

abbrev pub cleanup : List Log
cleanup = cleanup_called ∷ []

abbrev pub pre_cleanup : List Log
pre_cleanup = pre_cleanup_called ∷ []

abbrev pub subscriber_callback : String → List Log
subscriber_callback text = received_message text ∷ []

-- What `main` returns, once `execute` has returned.
abbrev pub exit_status : Bool → ℤ
exit_status executed = if not executed then pos 1 else pos 0

abbrev pub main : Phase → Option ℤ
main (finished result) = some (exit_status result)
main _ = none
