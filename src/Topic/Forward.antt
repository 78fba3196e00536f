-- ===== src/Topic/Forward.antt =====
-- The methods of `Node` that forward to these functions, with the node's handle.
use any_node.Base.{ℕ, Bool, Option}
use any_node.Param.{Server}
use any_node.Subscriber.{RosTime, Subscriber}
use any_node.Topic.Defs as Topic
use any_node.Topic.Defs.{Publication, Subscription, ServiceServer, ServiceClient}
use any_node.Publisher.{Publisher}
use Prim.Native.String.{String}

module _ {D : Type 0} (server : Server D) where
  unfoldable pub advertise : String → String → ℕ → Bool → Publication
  advertise name default_topic queue_size latch =
      Topic.advertise server name default_topic queue_size latch

  unfoldable pub threaded_advertise :
      {M : Type 0} → String → String → ℕ → Bool → ℕ → Publication × Publisher M
  threaded_advertise name default_topic queue_size latch max_message_buffer_size =
      Topic.threaded_advertise server name default_topic queue_size latch max_message_buffer_size

  module _ {F H : Type 0} where
    unfoldable pub subscribe : String → String → ℕ → F → H → Option (Subscription F H)
    subscribe name default_topic queue_size callback hints =
        Topic.subscribe server name default_topic queue_size callback hints

    -- The hints are not passed on: `default_hints` is the default argument of the function called.
    unfoldable pub throttled_subscribe :
        {T Δ : Type 0} ⦃r : RosTime T Δ⦄
        → H
        → Δ
        → String
        → String
        → ℕ
        → F
        → H
        → Option (Subscription F H × Subscriber T Δ)
    throttled_subscribe default_hints time_step name default_topic queue_size callback hints =
        Topic.throttled_subscribe server time_step name default_topic queue_size callback
          default_hints

  unfoldable pub advertise_service : {F : Type 0} → String → String → F → ServiceServer F
  advertise_service name default_service callback =
      Topic.advertise_service server name default_service callback

  unfoldable pub service_client : {H : Type 0} → String → String → H → ServiceClient H
  service_client name default_service header_values =
      Topic.service_client server name default_service header_values
