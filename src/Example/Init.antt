-- ===== src/Example/Init.antt =====
-- What the node's `init` leaves behind.
use any_node.Base.{
  ℕ, suc, ◌-◌, ◌≡◌, refl, ◌∙◌, Bool, true, false, not, if◌then◌else◌, none, some, List, [], ◌∷◌,
  ◌++◌, map,
}
use any_node.Base.Int.{negsuc}
use any_node.Base.Dict.{find, string_eq}
use any_node.Double.{Double, literal}
use any_node.Rate.Timespec.{Timespec}
use any_node.Param.{Server, param}
use any_node.Worker.{Worker, Effect, Platform, returned}
use any_node.Worker.Options.{worker_options, no_reaction}
use any_node.Manager as Manager
use any_node.Manager.{Manager}
use any_node.Manager.Lookup.{add_worker_new}
use any_node.Node.{add_worker}
use any_node.Topic as Topic
use any_node.Topic.{Publication, Subscription, is_deactivated, subscription}
use any_node.Topic.Forward as Node
use any_node.Example.Defs.{
  Event, worker, advertises, unadvertises, subscribes, unsubscribes, log, worker_name,
  default_worker_time_step, priority, init, in_scope, default_queue_size,
}
use Prim.Native.String.{String}
use text.Mathlib.Text.{◌==◌ as str_eq}

-- How many subscribers and publishers are open after the events, and how many calls of `subscribe`
-- there were that made one.
pub record Handles : Type 0 where
  pub subscribers : ℕ
  pub publishers : ℕ
  pub subscriptions : ℕ

module _ {D F H : Type 0} where
  abbrev pub handle : Handles → Event D F H → Handles
  handle h (worker e) = h
  handle h (advertises p) = record h { publishers = suc h.publishers }
  handle h (unadvertises p) = record h { publishers = h.publishers - 1 }
  handle h (subscribes s) = record h {
    subscribers = suc h.subscribers;
    subscriptions = suc h.subscriptions;
  }
  handle h (unsubscribes s) = record h { subscribers = h.subscribers - 1 }
  handle h (log l) = h

  abbrev pub handles : Handles → List (Event D F H) → Handles
  handles h [] = h
  handles h (e ∷ es) = handles (handle h e) es

  handles-worker :
      (h : Handles) (es : List (Effect D)) (fs : List (Event D F H))
      → handles h (map worker es ++ fs) ≡ handles h fs
  handles-worker h [] fs = refl
  handles-worker h (e ∷ es) fs = handles-worker h es fs

abbrev pub no_handles : Handles
no_handles = record { subscribers = 0; publishers = 0; subscriptions = 0 }

handles-in_scope :
    (D : Type 0) {F H : Type 0} (q : Publication) (s : Subscription F H) (deactivated : Bool)
    → handles {D = D} no_handles (in_scope q (if deactivated then none else some s))
      ≡ record no_handles { subscriptions = if deactivated then 0 else 1 }
handles-in_scope D q s true = refl
handles-in_scope D q s false = refl

module _ {D : Type 0} ⦃d : Double D⦄ where
  abbrev pub time_step : Server D → D
  time_step server = param (server.double_of "time_step") default_worker_time_step

module _ {D F H : Type 0} ⦃d : Double D⦄ ⦃p : Platform⦄ (server : Server D) where
  -- Where the node has no worker of that name, `init` returns true whatever the parameters are. It
  -- puts one worker there, which runs unless the time step of the server is negative, and leaves all
  -- others alone. It subscribes unless that is deactivated, but no subscriber and no publisher is
  -- open once it has returned.
  pub init_lem :
      (callback : F) (hints : H) (update : ℕ) (node : Manager D) (now moved : Timespec)
      → find worker_name node ≡ none
      → (q : Manager D) × (w : Worker D) × (es : List (Event D F H)) × (init server callback hints
            update node now moved
          ≡ returned (q, true, es))
        × (w.options
            ≡ worker_options worker_name (time_step server) update no_reaction priority (negsuc 0))
        × (w.running ≡ not (d.lt (time_step server) (literal 0)))
        × ((j : String) → find j q ≡ (if str_eq worker_name j then some w else find j node))
        × (handles no_handles es ≡ record no_handles {
          subscriptions = if is_deactivated server "my_subscriber_name" then 0 else 1;
        })
  unfolding init add_worker Manager.add_callback Node.subscribe Topic.subscribe worker_options
  init_lem callback hints update node now moved free =
      let (q, w, es, e, o, r, f) =
        add_worker_new node
          (worker_options worker_name (time_step server) update no_reaction priority (negsuc 0))
          true now moved free in
      let publisher =
        Node.advertise server "my_publisher_name" "/default_publisher_topic" default_queue_size
          false in
      let subscriber =
        Node.subscribe server "my_subscriber_name" "/default_subscriber_topic" default_queue_size
          callback hints in
      (
        q,
        w,
        map worker es ++ in_scope publisher subscriber,
        rw e,
        o,
        r,
        f,
        handles-worker no_handles es _
            ∙ handles-in_scope D publisher _ (is_deactivated server "my_subscriber_name"),
      )
