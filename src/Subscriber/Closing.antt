-- ===== src/Subscriber/Closing.antt =====
-- The subscription of a `ThrottledSubscriber`, from the constructors to `shutdown` and the destructor.
-- `ros::Subscriber` is outside: after its `shutdown` ROS starts no further call of the callback.
use any_node.Base.{◌≡◌, refl, ap, Bool, true, false, if◌then◌else◌, List, [], ◌∷◌, ◌++◌}
use any_node.Subscriber.Defs.{RosTime, Subscriber, construct, internal_callback, receive}

-- The object, with whether `subscriber_` is a subscription that is not shut down.
pub record Throttled (T Δ : Type 0) : Type 0 where
  pub subscriber : Subscriber T Δ
  pub subscribed : Bool

pub data Op {ℓ} (T : Type 0) (M : Type ℓ) : Type ℓ where
  -- ROS has a message, with the clock's reading if the callback is called.
  arrives : T → M → Op T M
  shuts_down : Op T M

module _ {T Δ : Type 0} ⦃r : RosTime T Δ⦄ where
  -- The default constructor, with the values that `ros::Time` and `ros::Duration` begin with.
  unfoldable pub empty : T → Δ → Throttled T Δ
  empty last_time time_step = record {
    subscriber = record { last_time = last_time; time_step = time_step };
    subscribed = false;
  }

  unfoldable pub subscribing : Δ → Throttled T Δ
  subscribing time_step = record { subscriber = construct time_step; subscribed = true }

  unfoldable pub shutdown : Throttled T Δ → Throttled T Δ
  shutdown t = record t { subscribed = false }

  unfoldable pub destruct : Throttled T Δ → Throttled T Δ
  destruct t = shutdown t

  -- The messages that the user's function is called with.
  unfoldable pub step {ℓ} : {M : Type ℓ} → Throttled T Δ → Op T M → Throttled T Δ × List M
  step t (arrives now msg) =
      if t.subscribed
      then (let (s, called) = internal_callback t.subscriber now msg in
          (record t { subscriber = s }, called))
      else (t, [])
  step t shuts_down = (shutdown t, [])

  unfoldable pub run {ℓ} : {M : Type ℓ} → Throttled T Δ → List (Op T M) → Throttled T Δ × List M
  run t [] = (t, [])
  run t (op ∷ ops) = let (u, called) = step t op in let (v, rest) = run u ops in (v, called ++ rest)

-- The messages that arrive before the subscription is shut down.
abbrev pub until_shutdown {ℓ} : {T : Type 0} {M : Type ℓ} → List (Op T M) → List (T × M)
until_shutdown [] = []
until_shutdown (arrives now msg ∷ ops) = (now, msg) ∷ until_shutdown ops
until_shutdown (shuts_down ∷ ops) = []

module _ {T Δ : Type 0} ⦃r : RosTime T Δ⦄ {M : Type 0} where
  run-unsubscribed :
      (s : Subscriber T Δ) (ops : List (Op T M))
      → (run (record { subscriber = s; subscribed = false }) ops).1 ≡ []
  unfolding run step shutdown
  run-unsubscribed s [] = refl
  run-unsubscribed s (arrives now msg ∷ ops) = run-unsubscribed s ops
  run-unsubscribed s (shuts_down ∷ ops) = run-unsubscribed s ops

  run-subscribed :
      (s : Subscriber T Δ) (ops : List (Op T M))
      → (run (record { subscriber = s; subscribed = true }) ops).1
        ≡ (receive s (until_shutdown ops)).1
  unfolding run step shutdown receive
  run-subscribed s [] = refl
  run-subscribed s (arrives now msg ∷ ops) =
      let (q, called) = internal_callback s now msg in
      ap (λ rest. called ++ rest) (run-subscribed q ops)
  run-subscribed s (shuts_down ∷ ops) = run-unsubscribed s ops

  -- Whatever arrives, and however often and whenever it is shut down: an object that subscribes calls
  -- the user's function as `receive` does for the messages before the first `shutdown`, with none of
  -- the later ones; an object of the default constructor never calls it; and after its destructor
  -- neither does any object.
  pub closed_lem :
      (time_step unset : Δ) (unset_time : T) (t : Throttled T Δ) (ops : List (Op T M))
      → ((run (subscribing time_step) ops).1
          ≡ (receive (construct time_step) (until_shutdown ops)).1)
        × ((run (empty unset_time unset) ops).1 ≡ [])
        × ((run (destruct t) ops).1 ≡ [])
  unfolding subscribing empty destruct shutdown
  closed_lem time_step unset unset_time t ops =
      (run-subscribed (construct time_step) ops, run-unsubscribed _ ops, run-unsubscribed _ ops)
