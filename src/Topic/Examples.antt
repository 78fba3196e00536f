-- ===== src/Topic/Examples.antt =====
-- The theorems on names at a server with one publisher, one subscriber and one that is deactivated.
use any_node.Base.{ℕ, ◌≡◌, refl, arith, true, false, not, if◌then◌else◌, none, some}
use any_node.Base.Int.{ℤ, pos, negsuc, ◌-ℤ◌, ltb_ℤ}
use any_node.Param.{Server, param}
use any_node.Subscriber.{RosTime}
use any_node.Publisher as Publisher
use any_node.Topic.Defs as Topic
use any_node.Topic.Defs.{is_deactivated}
use any_node.Topic.Forward as Node
use any_node.Topic.Ros2 as Ros2
use any_node.Topic.Ros2.{Config, keep_last, transient_local, reliable}
use any_node.Topic.Names.{publication, named_subscription, named_server, named_client, settings_lem}
use Prim.Native.String.{String}
use text.Mathlib.Text.{◌==◌ as str_eq}

abbrev sizes : Server ℕ
sizes = record {
  int_of = λ k.
      if str_eq k "publishers/odometry/queue_size"
      then some (negsuc 0)
      else if str_eq k "subscribers/joy/queue_size"
      then some (pos 5)
      else none;
  double_of = λ k. none;
  string_of = λ k. if str_eq k "subscribers/joy/topic" then some "/joystick" else none;
  bool_of = λ k. if str_eq k "subscribers/map/deactivate" then some true else none;
}

abbrev udp : String
udp = "udp"

abbrev tcp : String
tcp = "tcp"

instance abbrev nanoseconds : RosTime ℤ ℤ
nanoseconds = record { time_min = pos 0; sub = λ a b. a -ℤ b; ge = λ a b. not (ltb_ℤ a b) }

-- A queue size of -1 on the server.
negative_size :
    Node.advertise sizes "odometry" "/odom" 10 false
    ≡ record { topic = "/odom"; queue_size = 4_294_967_295; latch = false }
unfolding Node.advertise Topic.advertise
negative_size = refl

settings_lem_example :
    (Node.advertise sizes "joy" "/joy" 10 true ≡ publication sizes "joy" "/joy" 10 true)
    × (Node.threaded_advertise sizes {M = ℕ} "joy" "/joy" 10 true 5
        ≡ (publication sizes "joy" "/joy" 10 true, Publisher.construct 5 true))
    × (Node.subscribe sizes "joy" "/joy" 10 tt udp
        ≡ named_subscription sizes "joy" "/joy" 10 tt udp)
    × (Node.advertise_service sizes "joy" "/joy" tt ≡ named_server sizes "joy" "/joy" tt)
    × (Node.service_client sizes "joy" "/joy" udp ≡ named_client sizes "joy" "/joy" udp)
settings_lem_example = settings_lem sizes "joy" "/joy" 10 5 true tt udp (omega arith)

configured :
    named_subscription sizes "joy" "/joy" 10 tt udp
    ≡ some (record { topic = "/joystick"; queue_size = 5; callback = tt; hints = udp })
configured = refl

deactivated : named_subscription sizes "map" "/map" 10 tt udp ≡ none
deactivated = refl

-- The settings of a name that is advertised and subscribed to, which ROS 1 deactivates.
abbrev map_server : Server ℕ
map_server = record {
  int_of = λ k.
      if str_eq k "publishers/map/queue_size"
      then some (pos 3)
      else if str_eq k "subscribers/map/queue_size"
      then some (pos 3)
      else none;
  double_of = λ k. none;
  string_of = λ k.
      if str_eq k "publishers/map/topic"
      then some "/grid"
      else if str_eq k "subscribers/map/topic"
      then some "/grid"
      else none;
  bool_of = λ k.
      if str_eq k "subscribers/map/deactivate"
      then some true
      else if str_eq k "publishers/map/latch"
      then some true
      else none;
}

abbrev map_config : Config
map_config = record {
  string_of = λ k.
      if str_eq k "publishers.map.topic"
      then some "/grid"
      else if str_eq k "subscribers.map.topic"
      then some "/grid"
      else none;
  int_of = λ k.
      if str_eq k "publishers.map.queue_size"
      then some (pos 3)
      else if str_eq k "subscribers.map.queue_size"
      then some (pos 3)
      else none;
}

-- The settings for deactivation and latching have no effect in ROS 2.
ports :
    (Topic.subscribe map_server "map" "/map" 10 tt udp ≡ none)
    × (Ros2.subscribe map_config "map" "/map" 10 tt tcp
        ≡ some record { topic = "/grid"; qos = keep_last 3; callback = tt; group = tcp })
    × (Topic.advertise map_server "map" "/map" 10 false
        ≡ record { topic = "/grid"; queue_size = 3; latch = true })
    × (Ros2.advertise map_config "map" "/map" 10 false
        ≡ some record { topic = "/grid"; qos = keep_last 3 })
unfolding Topic.subscribe Topic.advertise Topic.subscription Ros2.subscribe Ros2.advertise param
    is_deactivated
ports = (refl, refl, refl, refl)

-- No topic for a name ends the program in ROS 2, with a default or without.
unnamed : Ros2.advertise map_config "joy" "/joy" 10 true ≡ none
unfolding Ros2.advertise
unnamed = refl
