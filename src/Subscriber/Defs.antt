-- ===== src/Subscriber/Defs.antt =====
-- The class `ThrottledSubscriber`. ROS's points in time and durations are outside.
use any_node.Base.{Bool, if◌then◌else◌, List, [], ◌∷◌, ◌++◌}

-- What the class uses of `ros::Time` and `ros::Duration`.
pub record RosTime (T Δ : Type 0) : Type 0 where
  pub time_min : T
  pub sub : T → T → Δ
  pub ge : Δ → Δ → Bool

pub record Subscriber (T Δ : Type 0) : Type 0 where
  pub last_time : T
  pub time_step : Δ

module _ {T Δ : Type 0} ⦃r : RosTime T Δ⦄ where
  -- The constructor, with its time step as a duration.
  unfoldable pub construct : Δ → Subscriber T Δ
  construct time_step = record { last_time = r.time_min; time_step = time_step }

  -- The callback that ROS calls, with the clock's reading: the user's function is called with the
  -- messages in the list.
  unfoldable pub internal_callback {ℓ} :
      {M : Type ℓ} → Subscriber T Δ → T → M → Subscriber T Δ × List M
  internal_callback s now msg =
      if r.ge (r.sub now s.last_time) s.time_step
      then (record s { last_time = now }, msg ∷ [])
      else (s, [])

  -- One message after the other, each with the clock's reading.
  unfoldable pub receive {ℓ} :
      {M : Type ℓ} → Subscriber T Δ → List (T × M) → Subscriber T Δ × List M
  receive s [] = (s, [])
  receive s ((now, msg) ∷ ms) =
      let (q, called) = internal_callback s now msg in
      let (last, rest) = receive q ms in (last, called ++ rest)
