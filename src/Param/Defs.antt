-- ===== src/Param/Defs.antt =====
-- `getParam` and `param`. The parameter server is outside: it answers a key, or does not.
use any_node.Base.{
  ℕ, ◌-◌, ◌^◌, ltb, Bool, true, false, if◌then◌else◌, Option, none, some, List, [], ◌∷◌,
}
use any_node.Base.Int.{ℤ, pos, negsuc, pos_part}
use Prim.Native.String.{String, ◌++◌}

-- `ros::NodeHandle::getParam`, for each type that the library asks for.
pub record Server (D : Type 0) : Type 0 where
  pub int_of : String → Option ℤ
  pub double_of : String → Option D
  pub string_of : String → Option String
  pub bool_of : String → Option Bool

pub record Time : Type 0 where
  pub sec : ℕ
  pub nsec : ℕ

pub record Header : Type 0 where
  pub stamp : Time
  pub seq : ℕ
  pub frame_id : String

-- `geometry_msgs::Vector3`, `geometry_msgs::Point` and `Eigen::Matrix<double, 3, 1>`, which are read
-- alike.
pub record Vector3 (D : Type 0) : Type 0 where
  pub x : D
  pub y : D
  pub z : D

pub record Quaternion (D : Type 0) : Type 0 where
  pub w : D
  pub x : D
  pub y : D
  pub z : D

pub record Pose (D : Type 0) : Type 0 where
  pub position : Vector3 D
  pub orientation : Quaternion D

pub record PoseStamped (D : Type 0) : Type 0 where
  pub header : Header
  pub pose : Pose D

pub record Twist (D : Type 0) : Type 0 where
  pub linear : Vector3 D
  pub angular : Vector3 D

pub record TwistStamped (D : Type 0) : Type 0 where
  pub header : Header
  pub twist : Twist D

-- `success = success && getParam(..)`, for one part after the other.
abbrev pub in_turn {ℓ} : {S : Type ℓ} → List (S → S × Bool) → S → S × Bool
in_turn [] s = (s, true)
in_turn (f ∷ fs) s =
    let (q, success) = f s in let rest = in_turn fs q in if success then rest else (q, false)

-- The general `getParam`: the parameter afterwards, and whether it was acquired.
abbrev pub get_param {ℓ} : {A : Type ℓ} → Option A → A → A × Bool
get_param none parameter = (parameter, false)
get_param (some value) parameter = (value, true)

unfoldable pub param {ℓ} : {A : Type ℓ} → Option A → A → A
param answer default = (get_param answer default).0

-- The conversion of a `uint32_t` to `int32_t`.
abbrev pub int32 : ℕ → ℤ
int32 n = if ltb n (2 ^ 31) then pos n else negsuc (2 ^ 32 - n - 1)

abbrev pub is_negative : ℤ → Bool
is_negative (pos n) = false
is_negative (negsuc n) = true

unfoldable pub get_uint32 : Option ℤ → ℕ → ℕ × Bool
get_uint32 answer parameter =
    let (value, success) = get_param answer (int32 parameter) in
    if is_negative value then (parameter, false) else (pos_part value, success)

-- A part of `S`, put in its place.
abbrev pub into {ℓ κ} : {A : Type ℓ} {S : Type κ} → (A → S) → A × Bool → S × Bool
into place r = (place r.0, r.1)

module _ {D : Type 0} (server : Server D) where
  unfoldable pub get_double : String → D → D × Bool
  get_double key parameter = get_param (server.double_of key) parameter

  unfoldable pub get_time : String → Time → Time × Bool
  unfolding get_uint32
  get_time key parameter =
      in_turn
        ((λ t. into (λ v. record t { sec = v }) (get_uint32 (server.int_of (key ++ "/sec")) t.sec))
          ∷ (λ t.
              into (λ v. record t { nsec = v })
                (get_uint32 (server.int_of (key ++ "/nsec")) t.nsec))
          ∷ [])
        parameter

  unfoldable pub get_header : String → Header → Header × Bool
  unfolding get_uint32 get_time
  get_header key parameter =
      in_turn
        ((λ h. into (λ v. record h { stamp = v }) (get_time (key ++ "/stamp") h.stamp))
          ∷ (λ h.
              into (λ v. record h { seq = v }) (get_uint32 (server.int_of (key ++ "/seq")) h.seq))
          ∷ (λ h.
              into (λ v. record h { frame_id = v })
                (get_param (server.string_of (key ++ "/frame_id")) h.frame_id))
          ∷ [])
        parameter

  unfoldable pub get_vector3 : String → Vector3 D → Vector3 D × Bool
  unfolding get_double
  get_vector3 key parameter =
      in_turn
        ((λ v. into (λ a. record v { x = a }) (get_double (key ++ "/x") v.x))
          ∷ (λ v. into (λ a. record v { y = a }) (get_double (key ++ "/y") v.y))
          ∷ (λ v. into (λ a. record v { z = a }) (get_double (key ++ "/z") v.z))
          ∷ [])
        parameter

  unfoldable pub get_quaternion : String → Quaternion D → Quaternion D × Bool
  unfolding get_double
  get_quaternion key parameter =
      in_turn
        ((λ q. into (λ a. record q { w = a }) (get_double (key ++ "/w") q.w))
          ∷ (λ q. into (λ a. record q { x = a }) (get_double (key ++ "/x") q.x))
          ∷ (λ q. into (λ a. record q { y = a }) (get_double (key ++ "/y") q.y))
          ∷ (λ q. into (λ a. record q { z = a }) (get_double (key ++ "/z") q.z))
          ∷ [])
        parameter

  unfoldable pub get_pose : String → Pose D → Pose D × Bool
  unfolding get_vector3 get_quaternion
  get_pose key parameter =
      in_turn
        ((λ p. into (λ v. record p { position = v }) (get_vector3 (key ++ "/position") p.position))
          ∷ (λ p.
              into (λ v. record p { orientation = v })
                (get_quaternion (key ++ "/orientation") p.orientation))
          ∷ [])
        parameter

  unfoldable pub get_pose_stamped : String → PoseStamped D → PoseStamped D × Bool
  unfolding get_header get_pose
  get_pose_stamped key parameter =
      in_turn
        ((λ p. into (λ v. record p { header = v }) (get_header (key ++ "/header") p.header))
          ∷ (λ p. into (λ v. record p { pose = v }) (get_pose (key ++ "/pose") p.pose))
          ∷ [])
        parameter

  unfoldable pub get_twist : String → Twist D → Twist D × Bool
  unfolding get_vector3
  get_twist key parameter =
      in_turn
        ((λ t. into (λ v. record t { linear = v }) (get_vector3 (key ++ "/linear") t.linear))
          ∷ (λ t. into (λ v. record t { angular = v }) (get_vector3 (key ++ "/angular") t.angular))
          ∷ [])
        parameter

  unfoldable pub get_twist_stamped : String → TwistStamped D → TwistStamped D × Bool
  unfolding get_header get_twist
  get_twist_stamped key parameter =
      in_turn
        ((λ t. into (λ v. record t { header = v }) (get_header (key ++ "/header") t.header))
          ∷ (λ t. into (λ v. record t { twist = v }) (get_twist (key ++ "/twist") t.twist))
          ∷ [])
        parameter
