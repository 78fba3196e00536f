-- ===== src/Param/Flat.antt =====
-- The overloads of `getParam` against the flat lists of their keys.
use any_node.Base.{◌≡◌, List, [], ◌∷◌, ◌++◌ as ◌<>◌}
use any_node.Param.Defs.{
  Server, Time, Header, Vector3, Quaternion, Pose, PoseStamped, Twist, TwistStamped, get_double,
  get_time, get_header, get_vector3, get_quaternion, get_pose, get_pose_stamped, get_twist,
  get_twist_stamped,
}
use any_node.Param.Eigen.{Vector2, get_vector3d, get_quaterniond, get_vector2}
use any_node.Param.Reference.{
  Leaf, Reads, leaf, under, natural, fill, complete, Reads-in_turn, structure, value, uint32,
}
use any_node.Param.Parts.{
  first, second, sec, nsec, stamp, seq, frame_id, x_of, y_of, z_of, w_part, x_part, y_part, z_part,
  position, orientation, pose_header, pose, linear, angular, twist_header, twist,
}
use Prim.Native.String.{String, ◌++◌}

module _ {D : Type 0} (server : Server D) where
  -- The keys of each structure, in the order in which they are read, with their places.
  pub leaves_time : String → List (Leaf Time)
  leaves_time key =
      leaf sec (natural (server.int_of (key ++ "/sec")))
      ∷ leaf nsec (natural (server.int_of (key ++ "/nsec")))
      ∷ []

  pub leaves_header : String → List (Leaf Header)
  unfolding leaves_time
  leaves_header key =
      under stamp (leaves_time (key ++ "/stamp"))
      <> (leaf seq (natural (server.int_of (key ++ "/seq")))
          ∷ leaf frame_id (server.string_of (key ++ "/frame_id"))
          ∷ [])

  pub leaves_vector3 : String → List (Leaf (Vector3 D))
  leaves_vector3 key =
      leaf x_of (server.double_of (key ++ "/x"))
      ∷ leaf y_of (server.double_of (key ++ "/y"))
      ∷ leaf z_of (server.double_of (key ++ "/z"))
      ∷ []

  pub leaves_vector2 : String → List (Leaf (Vector2 D))
  leaves_vector2 key =
      leaf first (server.double_of (key ++ "/x"))
      ∷ leaf second (server.double_of (key ++ "/y"))
      ∷ []

  pub leaves_quaternion : String → List (Leaf (Quaternion D))
  leaves_quaternion key =
      leaf w_part (server.double_of (key ++ "/w"))
      ∷ leaf x_part (server.double_of (key ++ "/x"))
      ∷ leaf y_part (server.double_of (key ++ "/y"))
      ∷ leaf z_part (server.double_of (key ++ "/z"))
      ∷ []

  pub leaves_quaterniond : String → List (Leaf (Quaternion D))
  leaves_quaterniond key =
      leaf x_part (server.double_of (key ++ "/x"))
      ∷ leaf y_part (server.double_of (key ++ "/y"))
      ∷ leaf z_part (server.double_of (key ++ "/z"))
      ∷ leaf w_part (server.double_of (key ++ "/w"))
      ∷ []

  pub leaves_pose : String → List (Leaf (Pose D))
  unfolding leaves_quaternion leaves_vector3
  leaves_pose key =
      under position (leaves_vector3 (key ++ "/position"))
      <> (under orientation (leaves_quaternion (key ++ "/orientation")) <> [])

  pub leaves_pose_stamped : String → List (Leaf (PoseStamped D))
  unfolding leaves_header leaves_pose
  leaves_pose_stamped key =
      under pose_header (leaves_header (key ++ "/header"))
      <> (under pose (leaves_pose (key ++ "/pose")) <> [])

  pub leaves_twist : String → List (Leaf (Twist D))
  unfolding leaves_vector3
  leaves_twist key =
      under linear (leaves_vector3 (key ++ "/linear"))
      <> (under angular (leaves_vector3 (key ++ "/angular")) <> [])

  pub leaves_twist_stamped : String → List (Leaf (TwistStamped D))
  unfolding leaves_header leaves_twist
  leaves_twist_stamped key =
      under twist_header (leaves_header (key ++ "/header"))
      <> (under twist (leaves_twist (key ++ "/twist")) <> [])

  Reads-time : (key : String) → Reads (get_time server key) (leaves_time key)
  unfolding leaves_time get_time get_double nsec sec
  Reads-time key = Reads-in_turn (
      uint32 sec (server.int_of (key ++ "/sec"))
      ∷ uint32 nsec (server.int_of (key ++ "/nsec"))
      ∷ [])

  Reads-header : (key : String) → Reads (get_header server key) (leaves_header key)
  unfolding leaves_header get_header get_double frame_id seq stamp
  Reads-header key = Reads-in_turn (
      structure stamp (get_time server (key ++ "/stamp")) (leaves_time (key ++ "/stamp"))
        (Reads-time (key ++ "/stamp"))
      ∷ uint32 seq (server.int_of (key ++ "/seq"))
      ∷ value frame_id (server.string_of (key ++ "/frame_id"))
      ∷ [])

  Reads-vector3 : (key : String) → Reads (get_vector3 server key) (leaves_vector3 key)
  unfolding leaves_vector3 get_vector3 get_double x_of y_of z_of
  Reads-vector3 key = Reads-in_turn (
      value x_of (server.double_of (key ++ "/x"))
      ∷ value y_of (server.double_of (key ++ "/y"))
      ∷ value z_of (server.double_of (key ++ "/z"))
      ∷ [])

  Reads-vector3d : (key : String) → Reads (get_vector3d server key) (leaves_vector3 key)
  unfolding leaves_vector3 get_vector3d get_double x_of y_of z_of
  Reads-vector3d key = Reads-in_turn (
      value x_of (server.double_of (key ++ "/x"))
      ∷ value y_of (server.double_of (key ++ "/y"))
      ∷ value z_of (server.double_of (key ++ "/z"))
      ∷ [])

  Reads-vector2 : (key : String) → Reads (get_vector2 server key) (leaves_vector2 key)
  unfolding leaves_vector2 get_vector2 get_double first second
  Reads-vector2 key = Reads-in_turn (
      value first (server.double_of (key ++ "/x"))
      ∷ value second (server.double_of (key ++ "/y"))
      ∷ [])

  Reads-quaternion : (key : String) → Reads (get_quaternion server key) (leaves_quaternion key)
  unfolding leaves_quaternion get_quaternion get_double w_part x_part y_part z_part
  Reads-quaternion key = Reads-in_turn (
      value w_part (server.double_of (key ++ "/w"))
      ∷ value x_part (server.double_of (key ++ "/x"))
      ∷ value y_part (server.double_of (key ++ "/y"))
      ∷ value z_part (server.double_of (key ++ "/z"))
      ∷ [])

  Reads-quaterniond : (key : String) → Reads (get_quaterniond server key) (leaves_quaterniond key)
  unfolding leaves_quaterniond get_quaterniond get_double w_part x_part y_part z_part
  Reads-quaterniond key = Reads-in_turn (
      value x_part (server.double_of (key ++ "/x"))
      ∷ value y_part (server.double_of (key ++ "/y"))
      ∷ value z_part (server.double_of (key ++ "/z"))
      ∷ value w_part (server.double_of (key ++ "/w"))
      ∷ [])

  Reads-pose : (key : String) → Reads (get_pose server key) (leaves_pose key)
  unfolding leaves_pose get_pose get_double orientation position
  Reads-pose key = Reads-in_turn (
      structure position (get_vector3 server (key ++ "/position"))
        (leaves_vector3 (key ++ "/position")) (Reads-vector3 (key ++ "/position"))
      ∷ structure orientation (get_quaternion server (key ++ "/orientation"))
          (leaves_quaternion (key ++ "/orientation")) (Reads-quaternion (key ++ "/orientation"))
      ∷ [])

  Reads-pose_stamped :
      (key : String) → Reads (get_pose_stamped server key) (leaves_pose_stamped key)
  unfolding leaves_pose_stamped get_pose_stamped get_double pose pose_header
  Reads-pose_stamped key = Reads-in_turn (
      structure pose_header (get_header server (key ++ "/header"))
        (leaves_header (key ++ "/header")) (Reads-header (key ++ "/header"))
      ∷ structure pose (get_pose server (key ++ "/pose")) (leaves_pose (key ++ "/pose"))
          (Reads-pose (key ++ "/pose"))
      ∷ [])

  Reads-twist : (key : String) → Reads (get_twist server key) (leaves_twist key)
  unfolding leaves_twist get_twist get_double angular linear
  Reads-twist key = Reads-in_turn (
      structure linear (get_vector3 server (key ++ "/linear")) (leaves_vector3 (key ++ "/linear"))
        (Reads-vector3 (key ++ "/linear"))
      ∷ structure angular (get_vector3 server (key ++ "/angular"))
          (leaves_vector3 (key ++ "/angular")) (Reads-vector3 (key ++ "/angular"))
      ∷ [])

  Reads-twist_stamped :
      (key : String) → Reads (get_twist_stamped server key) (leaves_twist_stamped key)
  unfolding leaves_twist_stamped get_twist_stamped get_double twist twist_header
  Reads-twist_stamped key = Reads-in_turn (
      structure twist_header (get_header server (key ++ "/header"))
        (leaves_header (key ++ "/header")) (Reads-header (key ++ "/header"))
      ∷ structure twist (get_twist server (key ++ "/twist")) (leaves_twist (key ++ "/twist"))
          (Reads-twist (key ++ "/twist"))
      ∷ [])

  -- Each overload reads its keys one after the other up to the first that the server does not answer (or
  -- answers by a negative number where an unsigned one is read): the parameter has what was read before
  -- that key in its places, and is as it was elsewhere; and the result is whether all were answered.
  pub get_param-fill :
      (key : String) (p : PoseStamped D) (t : TwistStamped D) (q : Quaternion D) (u : Vector3 D)
      (v : Vector2 D)
      → (get_pose_stamped server key p
          ≡ (fill (leaves_pose_stamped key) p, complete (leaves_pose_stamped key)))
        × (get_twist_stamped server key t
            ≡ (fill (leaves_twist_stamped key) t, complete (leaves_twist_stamped key)))
        × (get_quaterniond server key q
            ≡ (fill (leaves_quaterniond key) q, complete (leaves_quaterniond key)))
        × (get_vector3d server key u ≡ (fill (leaves_vector3 key) u, complete (leaves_vector3 key)))
        × (get_vector2 server key v ≡ (fill (leaves_vector2 key) v, complete (leaves_vector2 key)))
  get_param-fill key p t q u v = (
    Reads-pose_stamped key p,
    Reads-twist_stamped key t,
    Reads-quaterniond key q,
    Reads-vector3d key u,
    Reads-vector2 key v,
  )
