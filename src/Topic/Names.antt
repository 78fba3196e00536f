-- ===== src/Topic/Names.antt =====
-- What the settings of a name do.
use any_node.Base.{
  ℕ, ◌^◌, ◌<◌, ◌≡◌, refl, ap, ◌∙◌, arith, Bool, true, false, if◌then◌else◌, Option, none, some,
}
use any_node.Base.Int.{ℤ}
use any_node.Param.{Server, param, int32}
use any_node.Subscriber.{RosTime}
use any_node.Publisher as Publisher
use any_node.Publisher.{Publisher}
use any_node.Topic.Defs as Topic
use any_node.Topic.Defs.{
  ServiceServer, ServiceClient, Publication, Subscription, uint32, queue_size_of, is_deactivated,
  subscription,
}
use any_node.Topic.Forward as Node
use Prim.Native.String.{String, ◌++◌}

-- The server's value, or the caller's.
abbrev pub given {ℓ} : {A : Type ℓ} → Option A → A → A
given none a = a
given (some b) a = b

abbrev pub map_size : Option ℤ → Option ℕ
map_size none = none
map_size (some z) = some (uint32 z)

uint32-int32 : (n : ℕ) → n < 2 ^ 32 → uint32 (int32 n) ≡ n
uint32-int32 n h = ground arith

queue_size_of_lem :
    (answer : Option ℤ) (n : ℕ) → n < 2 ^ 32 → queue_size_of answer n ≡ given (map_size answer) n
unfolding param
queue_size_of_lem none n h = uint32-int32 n h
queue_size_of_lem (some z) n h = refl

-- What a name's settings give a publisher, and a subscriber, by the caller's arguments.
abbrev pub publication : {D : Type 0} → Server D → String → String → ℕ → Bool → Publication
publication server name default_topic queue_size latch = record {
  topic = given (server.string_of ("publishers/" ++ name ++ "/topic")) default_topic;
  queue_size = given (map_size (server.int_of ("publishers/" ++ name ++ "/queue_size"))) queue_size;
  latch = given (server.bool_of ("publishers/" ++ name ++ "/latch")) latch;
}

-- None where the name is deactivated.
abbrev pub active : {S : Type 0} → Option Bool → S → Option S
active none s = some s
active (some deactivate) s = if deactivate then none else some s

abbrev pub named_subscription :
    {D F H : Type 0} → Server D → String → String → ℕ → F → H → Option (Subscription F H)
named_subscription server name default_topic queue_size callback hints =
    active (server.bool_of ("subscribers/" ++ name ++ "/deactivate")) record {
      topic = given (server.string_of ("subscribers/" ++ name ++ "/topic")) default_topic;
      queue_size =
          given (map_size (server.int_of ("subscribers/" ++ name ++ "/queue_size"))) queue_size;
      callback = callback;
      hints = hints;
    }

param-given {ℓ} : {A : Type ℓ} (answer : Option A) (a : A) → param answer a ≡ given answer a
unfolding param
param-given none a = refl
param-given (some b) a = refl

if-active :
    {S : Type 0} (answer : Option Bool) (s : S)
    → (if param answer false then none else some s) ≡ active answer s
unfolding param
if-active none s = refl
if-active (some d) s = refl

advertise_lem :
    {D : Type 0} (server : Server D) (name default_topic : String) (queue_size : ℕ) (latch : Bool)
    → queue_size < 2 ^ 32
    → Node.advertise server name default_topic queue_size latch
      ≡ publication server name default_topic queue_size latch
unfolding Node.advertise Topic.advertise param
advertise_lem server name default_topic queue_size latch h = λ i. record {
  topic = param-given (server.string_of ("publishers/" ++ name ++ "/topic")) default_topic i;
  queue_size =
      queue_size_of_lem (server.int_of ("publishers/" ++ name ++ "/queue_size")) queue_size h i;
  latch = param-given (server.bool_of ("publishers/" ++ name ++ "/latch")) latch i;
}

subscribe_lem :
    {D F H : Type 0} (server : Server D) (name default_topic : String) (queue_size : ℕ)
    (callback : F) (hints : H)
    → queue_size < 2 ^ 32
    → Node.subscribe server name default_topic queue_size callback hints
      ≡ named_subscription server name default_topic queue_size callback hints
unfolding Node.subscribe Topic.subscribe is_deactivated subscription
subscribe_lem server name default_topic queue_size callback hints h =
    if-active _ _
    ∙ ap (active (server.bool_of ("subscribers/" ++ name ++ "/deactivate"))) (λ i. record {
      topic = param-given (server.string_of ("subscribers/" ++ name ++ "/topic")) default_topic i;
      queue_size =
          queue_size_of_lem (server.int_of ("subscribers/" ++ name ++ "/queue_size")) queue_size h
            i;
      callback = callback;
      hints = hints;
    })

-- The service that a name's settings give, and the client of one.
abbrev pub named_server : {D F : Type 0} → Server D → String → String → F → ServiceServer F
named_server server name default_service callback = record {
  service = given (server.string_of ("servers/" ++ name ++ "/service")) default_service;
  callback = callback;
}

abbrev pub named_client : {D H : Type 0} → Server D → String → String → H → ServiceClient H
named_client server name default_service header_values = record {
  service = given (server.string_of ("clients/" ++ name ++ "/service")) default_service;
  persistent = given (server.bool_of ("clients/" ++ name ++ "/persistent")) false;
  header_values = header_values;
}

advertise_service_lem :
    {D F : Type 0} (server : Server D) (name default_service : String) (callback : F)
    → Node.advertise_service server name default_service callback
      ≡ named_server server name default_service callback
unfolding Node.advertise_service Topic.advertise_service param
advertise_service_lem server name default_service callback = λ i. record {
  service = param-given (server.string_of ("servers/" ++ name ++ "/service")) default_service i;
  callback = callback;
}

service_client_lem :
    {D H : Type 0} (server : Server D) (name default_service : String) (header_values : H)
    → Node.service_client server name default_service header_values
      ≡ named_client server name default_service header_values
unfolding Node.service_client Topic.service_client param
service_client_lem server name default_service header_values = λ i. record {
  service = param-given (server.string_of ("clients/" ++ name ++ "/service")) default_service i;
  persistent = param-given (server.bool_of ("clients/" ++ name ++ "/persistent")) false i;
  header_values = header_values;
}

-- With a queue size of 32 bits: `Node::advertise` and `Node::threadedAdvertise` ask for the server's
-- topic, queue size and latch, and for the caller's where the server has none; the latter makes a
-- publisher with a thread and the caller's buffer size. `Node::subscribe` asks for nothing where the name
-- is deactivated, and else for the server's topic and queue size, the caller's where the server has none,
-- with the caller's callback and hints. A size that the server has as a negative number is asked for
-- modulo 2^32. `Node::advertiseService` and `Node::serviceClient` ask for the server's service, or the
-- caller's; the client is persistent only if the server says so.
pub settings_lem :
    {D F H M : Type 0} (server : Server D) (name default_topic : String)
    (queue_size buffer_size : ℕ) (latch : Bool) (callback : F) (hints : H)
    → queue_size < 2 ^ 32
    → (Node.advertise server name default_topic queue_size latch
        ≡ publication server name default_topic queue_size latch)
      × (Node.threaded_advertise server {M = M} name default_topic queue_size latch buffer_size ≡ (
        publication server name default_topic queue_size latch,
        Publisher.construct buffer_size true,
      ))
      × (Node.subscribe server name default_topic queue_size callback hints
          ≡ named_subscription server name default_topic queue_size callback hints)
      × (Node.advertise_service server name default_topic callback
          ≡ named_server server name default_topic callback)
      × (Node.service_client server name default_topic hints
          ≡ named_client server name default_topic hints)
unfolding Node.threaded_advertise Topic.threaded_advertise Node.advertise
settings_lem server name default_topic queue_size buffer_size latch callback hints h =
    let published = advertise_lem server name default_topic queue_size latch h in
    (
      published,
      ap (λ p. (p, Publisher.construct buffer_size true)) published,
      subscribe_lem server name default_topic queue_size callback hints h,
      advertise_service_lem server name default_topic callback,
      service_client_lem server name default_topic hints,
    )

-- The subscription without its throttle.
abbrev asked : {A B : Type 0} → Option (A × B) → Option A
asked none = none
asked (some (a, b)) = some a

asked-if :
    {A B : Type 0} (deactivated : Bool) (a : A) (b : B)
    → asked (if deactivated then none else some (a, b)) ≡ (if deactivated then none else some a)
asked-if true a b = refl
asked-if false a b = refl

-- Whatever the caller's transport hints, `Node::throttledSubscribe` asks of ROS what
-- `Node::subscribe` asks with the default hints, and asks nothing exactly where that asks nothing.
throttled_subscribe-subscribe :
    {D F H Δ : Type 0} (T : Type 0) ⦃r : RosTime T Δ⦄ (server : Server D)
    (name default_topic : String) (queue_size : ℕ) (callback : F) (hints default_hints : H)
    (time_step : Δ)
    → asked (
        Node.throttled_subscribe server {T = T} default_hints time_step name default_topic
          queue_size callback hints)
      ≡ Node.subscribe server name default_topic queue_size callback default_hints
unfolding Node.throttled_subscribe Node.subscribe Topic.throttled_subscribe Topic.subscribe
throttled_subscribe-subscribe T server name default_topic queue_size callback hints default_hints
      time_step =
    asked-if (is_deactivated server name) _ _
