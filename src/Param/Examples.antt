-- ===== src/Param/Examples.antt =====
-- The theorems on parameters at servers with one pose, and with one that lacks a number.
use any_node.Base.{ℕ, ◌≡◌, refl, true, false, if◌then◌else◌, none, some}
use any_node.Base.Int.{pos}
use any_node.Param.Defs.{
  Server, PoseStamped, TwistStamped, get_uint32, get_time, get_header, get_pose_stamped,
  get_twist_stamped,
}
use any_node.Param.Eigen.{Vector2, get_vector3d, get_quaterniond, get_vector2}
use any_node.Param.Results.{HoldsPoseStamped, get_pose_stamped_lem}
use any_node.Param.Reference.{fill, complete}
use any_node.Param.Flat.{
  leaves_pose_stamped, leaves_twist_stamped, leaves_quaterniond, leaves_vector3, leaves_vector2,
  get_param-fill,
}
use any_node.Base.Dict.{string_eq}
use text.Mathlib.Text.{◌==◌ as str_eq}

-- A server that holds 1 under each key.
abbrev ones : Server ℕ
ones = record {
  int_of = λ k. some (pos 1);
  double_of = λ k. some 1;
  string_of = λ k. some "map";
  bool_of = λ k. none;
}

-- One that has no number of the header.
abbrev no_seq : Server ℕ
no_seq = record {
  int_of = λ k. if str_eq k "goal/header/seq" then none else some (pos 7);
  double_of = λ k. some 1;
  string_of = λ k. some "map";
  bool_of = λ k. none;
}

abbrev goal_pose : PoseStamped ℕ
goal_pose = record {
  header = record { stamp = record { sec = 1; nsec = 1 }; seq = 1; frame_id = "map" };
  pose = record {
    position = record { x = 1; y = 1; z = 1 };
    orientation = record { w = 1; x = 1; y = 1; z = 1 };
  };
}

abbrev origin : PoseStamped ℕ
origin = record {
  header = record { stamp = record { sec = 0; nsec = 0 }; seq = 0; frame_id = "" };
  pose = record {
    position = record { x = 0; y = 0; z = 0 };
    orientation = record { w = 1; x = 0; y = 0; z = 0 };
  };
}

held : HoldsPoseStamped ones "goal" goal_pose
held = record {
  header = record { stamp = record { sec = refl; nsec = refl }; seq = refl; frame_id = refl };
  position = record { x = refl; y = refl; z = refl };
  orientation = record { w = refl; x = refl; y = refl; z = refl };
}

abbrev still : TwistStamped ℕ
still = record {
  header = origin.header;
  twist = record {
    linear = record { x = 0; y = 0; z = 0 };
    angular = record { x = 0; y = 0; z = 0 };
  };
}

abbrev corner : Vector2 ℕ
corner = record { x = 3; y = 4 }

get_param-fill_example :
    (get_pose_stamped no_seq "goal" origin ≡ (
      fill (leaves_pose_stamped no_seq "goal") origin,
      complete (leaves_pose_stamped no_seq "goal"),
    ))
    × (get_twist_stamped no_seq "goal" still ≡ (
      fill (leaves_twist_stamped no_seq "goal") still,
      complete (leaves_twist_stamped no_seq "goal"),
    ))
    × (get_quaterniond no_seq "goal" origin.pose.orientation ≡ (
      fill (leaves_quaterniond no_seq "goal") origin.pose.orientation,
      complete (leaves_quaterniond no_seq "goal"),
    ))
    × (get_vector3d no_seq "goal" goal_pose.pose.position ≡ (
      fill (leaves_vector3 no_seq "goal") goal_pose.pose.position,
      complete (leaves_vector3 no_seq "goal"),
    ))
    × (get_vector2 no_seq "goal" corner
        ≡ (fill (leaves_vector2 no_seq "goal") corner, complete (leaves_vector2 no_seq "goal")))
get_param-fill_example =
    get_param-fill no_seq "goal" origin still origin.pose.orientation goal_pose.pose.position corner

-- The stamp is read, and stays in the parameter, though the header is not.
partial_read : get_pose_stamped no_seq "goal" origin ≡ (
  record origin { header = record origin.header { stamp = record { sec = 7; nsec = 7 } } },
  false,
)
unfolding get_pose_stamped get_header get_time get_uint32
partial_read = refl

goal_is_read : get_pose_stamped ones "goal" origin ≡ (goal_pose, true)
goal_is_read = get_pose_stamped_lem ones "goal" goal_pose origin held
