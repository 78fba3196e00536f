-- ===== src/Param/Results.antt =====
-- What `getParam` gives for what the server holds.
use any_node.Base.{ℕ, ◌^◌, ◌<◌, ◌≡◌, refl, arith, ◌⊎◌, inl, inr, true, false, Option, none, some}
use any_node.Base.Int.{ℤ, pos, negsuc}
use any_node.Param.Defs.{
  Server, Time, Header, Vector3, Quaternion, PoseStamped, get_uint32, get_double, get_time,
  get_header, get_vector3, get_quaternion, get_pose, get_pose_stamped,
}
use Prim.Native.String.{String, ◌++◌}

-- `getParam` of an unsigned number, whatever the parameter holds, also if that is no `int32_t`: it
-- either fails and leaves the parameter alone, or the server has the number that it gives.
get_uint32_lem :
    (answer : Option ℤ) (parameter : ℕ)
    → parameter < 2 ^ 32
    → let (value, success) = get_uint32 answer parameter in
      ((success ≡ false) × (value ≡ parameter)) ⊎ ((success ≡ true) × (answer ≡ some (pos value)))
unfolding get_uint32
get_uint32_lem none parameter h = inl (ground arith, ground arith)
get_uint32_lem (some (pos n)) parameter h = inr (refl, refl)
get_uint32_lem (some (negsuc n)) parameter h = inl (refl, refl)

module _ {D : Type 0} (server : Server D) where
  -- The server holds a value under a key: each of its numbers under the key of that part.
  pub record HoldsTime (key : String) (t : Time) : Type 0 where
    pub sec : server.int_of (key ++ "/sec") ≡ some (pos t.sec)
    pub nsec : server.int_of (key ++ "/nsec") ≡ some (pos t.nsec)

  pub record HoldsHeader (key : String) (h : Header) : Type 0 where
    pub stamp : HoldsTime (key ++ "/stamp") h.stamp
    pub seq : server.int_of (key ++ "/seq") ≡ some (pos h.seq)
    pub frame_id : server.string_of (key ++ "/frame_id") ≡ some h.frame_id

  pub record HoldsVector3 (key : String) (v : Vector3 D) : Type 0 where
    pub x : server.double_of (key ++ "/x") ≡ some v.x
    pub y : server.double_of (key ++ "/y") ≡ some v.y
    pub z : server.double_of (key ++ "/z") ≡ some v.z

  pub record HoldsQuaternion (key : String) (q : Quaternion D) : Type 0 where
    pub w : server.double_of (key ++ "/w") ≡ some q.w
    pub x : server.double_of (key ++ "/x") ≡ some q.x
    pub y : server.double_of (key ++ "/y") ≡ some q.y
    pub z : server.double_of (key ++ "/z") ≡ some q.z

  pub record HoldsPoseStamped (key : String) (p : PoseStamped D) : Type 0 where
    pub header : HoldsHeader (key ++ "/header") p.header
    pub position : HoldsVector3 ((key ++ "/pose") ++ "/position") p.pose.position
    pub orientation : HoldsQuaternion ((key ++ "/pose") ++ "/orientation") p.pose.orientation

  get_time_lem : (key : String) (t v : Time) → HoldsTime key t → get_time server key v ≡ (t, true)
  unfolding get_time get_uint32
  get_time_lem key t v h = rw (h.sec, h.nsec) refl

  get_header_lem :
      (key : String) (t v : Header) → HoldsHeader key t → get_header server key v ≡ (t, true)
  unfolding get_header get_uint32
  get_header_lem key t v h =
      rw (get_time_lem (key ++ "/stamp") t.stamp v.stamp h.stamp, h.seq, h.frame_id) refl

  get_vector3_lem :
      (key : String) (t v : Vector3 D) → HoldsVector3 key t → get_vector3 server key v ≡ (t, true)
  unfolding get_vector3 get_double
  get_vector3_lem key t v h = rw (h.x, h.y, h.z) refl

  get_quaternion_lem :
      (key : String) (t v : Quaternion D)
      → HoldsQuaternion key t
      → get_quaternion server key v ≡ (t, true)
  unfolding get_quaternion get_double
  get_quaternion_lem key t v h = rw (h.w, h.x, h.y, h.z) refl

  -- A stamped pose that the server holds is read whole, whatever the parameter was before.
  pub get_pose_stamped_lem :
      (key : String) (p v : PoseStamped D)
      → HoldsPoseStamped key p
      → get_pose_stamped server key v ≡ (p, true)
  unfolding get_pose_stamped get_pose
  get_pose_stamped_lem key p v h =
      rw
        (
          get_header_lem (key ++ "/header") p.header v.header h.header,
          get_vector3_lem ((key ++ "/pose") ++ "/position") p.pose.position v.pose.position
              h.position,
          get_quaternion_lem ((key ++ "/pose") ++ "/orientation") p.pose.orientation
              v.pose.orientation h.orientation,
        )
        refl
