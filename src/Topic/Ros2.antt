-- ===== src/Topic/Ros2.antt =====
-- any_node/include/any_node/Topic.hpp as it is built for ROS 2, with the methods of
-- any_node/include/any_node/Node.hpp that forward to it. The library that reads the parameters is
-- outside: its function returns a value for a key, or does not return.
use any_node.Base.{ℕ, ◌-◌, ◌%◌, ◌^◌, Bool, true, if◌then◌else◌, Option, some}
use any_node.Base.Int.{ℤ, pos, negsuc}
use any_node.Publisher as Publisher
use any_node.Publisher.{Publisher, ◌>>=◌}
use Prim.Native.String.{String, ◌++◌}

-- `acl::config::getParameter`, for each type that is asked for; none where it does not return.
pub record Config : Type 0 where
  pub string_of : String → Option String
  pub int_of : String → Option ℤ

-- The conversion of an `int` to `size_t`.
abbrev pub uint64 : ℤ → ℕ
uint64 (pos n) = n % 2 ^ 64
uint64 (negsuc n) = 2 ^ 64 - 1 - n % 2 ^ 64

pub data Durability : Type 0 where
  default_durability transient_local : Durability

pub data Reliability : Type 0 where
  default_reliability reliable : Reliability

-- `rclcpp::QoS`, with the history `KeepLast`.
pub record Qos : Type 0 where
  pub depth : ℕ
  pub durability : Durability
  pub reliability : Reliability

abbrev pub keep_last : ℕ → Qos
keep_last depth = record {
  depth = depth;
  durability = default_durability;
  reliability = default_reliability;
}

-- The arguments of `create_publisher`, `create_subscription`, `create_service` and `create_client`.
pub record Publication : Type 0 where
  pub topic : String
  pub qos : Qos

pub record Subscription (F G : Type 0) : Type 0 where
  pub topic : String
  pub qos : Qos
  pub callback : F
  pub group : G

pub record Service (F G : Type 0) : Type 0 where
  pub service : String
  pub callback : F
  pub group : G

pub record Client (G : Type 0) : Type 0 where
  pub service : String
  pub group : G

module _ (config : Config) where
  -- The default topic and the queue size of the caller are not used.
  unfoldable pub advertise : String → String → ℕ → Bool → Option Publication
  advertise name default_topic queue_size latch = do
    topic ← config.string_of ("publishers." ++ name ++ ".topic")
    size ← config.int_of ("publishers." ++ name ++ ".queue_size")
    let profile = keep_last (uint64 size)
    some record {
      topic = topic;
      qos =
          if latch
          then record profile { durability = transient_local; reliability = reliable }
          else profile;
    }

  unfoldable pub threaded_advertise :
      {M : Type 0} → String → String → ℕ → Bool → ℕ → Option (Publication × Publisher M)
  unfolding advertise
  threaded_advertise name default_topic queue_size latch max_message_buffer_size = do
    publication ← advertise name default_topic queue_size latch
    some (publication, Publisher.construct max_message_buffer_size true)

  module _ {F G : Type 0} where
    unfoldable pub subscribe : String → String → ℕ → F → G → Option (Subscription F G)
    subscribe name default_topic queue_size callback group = do
      topic ← config.string_of ("subscribers." ++ name ++ ".topic")
      size ← config.int_of ("subscribers." ++ name ++ ".queue_size")
      some record {
        topic = topic;
        qos = keep_last (uint64 size);
        callback = callback;
        group = group;
      }

    unfoldable pub advertise_service : String → String → F → G → Option (Service F G)
    advertise_service name default_service callback group = do
      service ← config.string_of ("servers." ++ name ++ ".service")
      some record { service = service; callback = callback; group = group }

  unfoldable pub service_client : {G : Type 0} → String → String → G → Option (Client G)
  service_client name default_service group = do
    service ← config.string_of ("clients." ++ name ++ ".service")
    some record { service = service; group = group }

  -- `Node::subscribe`: with no callback group.
  unfoldable pub subscribe_node :
      {F G : Type 0} → G → String → String → ℕ → F → Option (Subscription F G)
  unfolding subscribe
  subscribe_node no_group name default_topic queue_size callback =
      subscribe name default_topic queue_size callback no_group
