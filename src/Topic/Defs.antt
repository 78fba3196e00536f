-- ===== src/Topic/Defs.antt =====
-- The functions that look the settings of a name up on the parameter server, and ask ROS for a
-- publisher, a subscriber or a service. Callbacks, transport hints and headers are outside: a value
-- of some type stands for each.
use any_node.Base.{ℕ, ◌-◌, ◌%◌, ◌^◌, Bool, true, false, if◌then◌else◌, Option, none, some}
use any_node.Base.Int.{ℤ, pos, negsuc}
use any_node.Param.{Server, param, int32}
use any_node.Publisher as Publisher
use any_node.Publisher.{Publisher}
use any_node.Subscriber as Subscriber
use any_node.Subscriber.{RosTime, Subscriber}
use Prim.Native.String.{String, ◌++◌}

-- The conversion of an `int` to `uint32_t`.
abbrev pub uint32 : ℤ → ℕ
uint32 (pos n) = n % 2 ^ 32
uint32 (negsuc n) = 2 ^ 32 - 1 - n % 2 ^ 32

-- `param<int>(.., queue_size)`, where a `uint32_t` goes in and comes out.
abbrev pub queue_size_of : Option ℤ → ℕ → ℕ
queue_size_of answer queue_size = uint32 (param answer (int32 queue_size))

-- The arguments of `NodeHandle::advertise`.
pub record Publication : Type 0 where
  pub topic : String
  pub queue_size : ℕ
  pub latch : Bool

-- Those of `NodeHandle::subscribe`.
pub record Subscription (F H : Type 0) : Type 0 where
  pub topic : String
  pub queue_size : ℕ
  pub callback : F
  pub hints : H

pub record ServiceServer (F : Type 0) : Type 0 where
  pub service : String
  pub callback : F

pub record ServiceClient (H : Type 0) : Type 0 where
  pub service : String
  pub persistent : Bool
  pub header_values : H

module _ {D : Type 0} (server : Server D) where
  unfoldable pub advertise : String → String → ℕ → Bool → Publication
  unfolding param
  advertise name default_topic queue_size latch = record {
    topic = param (server.string_of ("publishers/" ++ name ++ "/topic")) default_topic;
    queue_size = queue_size_of (server.int_of ("publishers/" ++ name ++ "/queue_size")) queue_size;
    latch = param (server.bool_of ("publishers/" ++ name ++ "/latch")) latch;
  }

  unfoldable pub threaded_advertise :
      {M : Type 0} → String → String → ℕ → Bool → ℕ → Publication × Publisher M
  unfolding advertise
  threaded_advertise name default_topic queue_size latch max_message_buffer_size = (
    advertise name default_topic queue_size latch,
    Publisher.construct max_message_buffer_size true,
  )

  -- `nh.param<bool>(.., false)`
  unfoldable pub is_deactivated : String → Bool
  unfolding param
  is_deactivated name = param (server.bool_of ("subscribers/" ++ name ++ "/deactivate")) false

  module _ {F H : Type 0} where
    unfoldable pub subscription : String → String → ℕ → F → H → Subscription F H
    unfolding param
    subscription name default_topic queue_size callback hints = record {
      topic = param (server.string_of ("subscribers/" ++ name ++ "/topic")) default_topic;
      queue_size =
          queue_size_of (server.int_of ("subscribers/" ++ name ++ "/queue_size")) queue_size;
      callback = callback;
      hints = hints;
    }

    -- None is the empty subscriber.
    unfoldable pub subscribe : String → String → ℕ → F → H → Option (Subscription F H)
    unfolding is_deactivated subscription
    subscribe name default_topic queue_size callback hints =
        if is_deactivated name
        then none
        else some (subscription name default_topic queue_size callback hints)

    -- With the time step as a duration. None is the object that the default constructor makes, which
    -- subscribes to nothing. ROS calls `internalCallback`, which calls the callback.
    unfoldable pub throttled_subscribe :
        {T Δ : Type 0} ⦃r : RosTime T Δ⦄
        → Δ
        → String
        → String
        → ℕ
        → F
        → H
        → Option (Subscription F H × Subscriber T Δ)
    unfolding is_deactivated subscription
    throttled_subscribe time_step name default_topic queue_size callback hints =
        if is_deactivated name
        then none
        else some (
          subscription name default_topic queue_size callback hints,
          Subscriber.construct time_step,
        )

  unfoldable pub advertise_service : {F : Type 0} → String → String → F → ServiceServer F
  unfolding param
  advertise_service name default_service callback = record {
    service = param (server.string_of ("servers/" ++ name ++ "/service")) default_service;
    callback = callback;
  }

  unfoldable pub service_client : {H : Type 0} → String → String → H → ServiceClient H
  unfolding param
  service_client name default_service header_values = record {
    service = param (server.string_of ("clients/" ++ name ++ "/service")) default_service;
    persistent = param (server.bool_of ("clients/" ++ name ++ "/persistent")) false;
    header_values = header_values;
  }
