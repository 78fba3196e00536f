-- ===== src/Param/Parts.antt =====
-- The parts of the messages that `getParam` reads.
use any_node.Base.{ℕ, refl}
use any_node.Param.Defs.{Time, Header, Vector3, Quaternion, Pose, PoseStamped, Twist, TwistStamped}
use any_node.Param.Eigen.{Vector2}
use any_node.Param.Reference.{Lens}
use Prim.Native.String.{String}

unfoldable pub sec : Lens Time ℕ
sec = record {
  get = λ s. s.sec;
  set = λ s a. record s { sec = a };
  set-get = λ s. refl;
  get-set = λ s a. refl;
  set-set = λ s a b. refl;
}

unfoldable pub nsec : Lens Time ℕ
nsec = record {
  get = λ s. s.nsec;
  set = λ s a. record s { nsec = a };
  set-get = λ s. refl;
  get-set = λ s a. refl;
  set-set = λ s a b. refl;
}

unfoldable pub stamp : Lens Header Time
stamp = record {
  get = λ s. s.stamp;
  set = λ s a. record s { stamp = a };
  set-get = λ s. refl;
  get-set = λ s a. refl;
  set-set = λ s a b. refl;
}

unfoldable pub seq : Lens Header ℕ
seq = record {
  get = λ s. s.seq;
  set = λ s a. record s { seq = a };
  set-get = λ s. refl;
  get-set = λ s a. refl;
  set-set = λ s a b. refl;
}

unfoldable pub frame_id : Lens Header String
frame_id = record {
  get = λ s. s.frame_id;
  set = λ s a. record s { frame_id = a };
  set-get = λ s. refl;
  get-set = λ s a. refl;
  set-set = λ s a b. refl;
}

module _ {D : Type 0} where
  unfoldable pub x_of : Lens (Vector3 D) D
  x_of = record {
    get = λ s. s.x;
    set = λ s a. record s { x = a };
    set-get = λ s. refl;
    get-set = λ s a. refl;
    set-set = λ s a b. refl;
  }

  unfoldable pub y_of : Lens (Vector3 D) D
  y_of = record {
    get = λ s. s.y;
    set = λ s a. record s { y = a };
    set-get = λ s. refl;
    get-set = λ s a. refl;
    set-set = λ s a b. refl;
  }

  unfoldable pub z_of : Lens (Vector3 D) D
  z_of = record {
    get = λ s. s.z;
    set = λ s a. record s { z = a };
    set-get = λ s. refl;
    get-set = λ s a. refl;
    set-set = λ s a b. refl;
  }

  unfoldable pub w_part : Lens (Quaternion D) D
  w_part = record {
    get = λ s. s.w;
    set = λ s a. record s { w = a };
    set-get = λ s. refl;
    get-set = λ s a. refl;
    set-set = λ s a b. refl;
  }

  unfoldable pub x_part : Lens (Quaternion D) D
  x_part = record {
    get = λ s. s.x;
    set = λ s a. record s { x = a };
    set-get = λ s. refl;
    get-set = λ s a. refl;
    set-set = λ s a b. refl;
  }

  unfoldable pub y_part : Lens (Quaternion D) D
  y_part = record {
    get = λ s. s.y;
    set = λ s a. record s { y = a };
    set-get = λ s. refl;
    get-set = λ s a. refl;
    set-set = λ s a b. refl;
  }

  unfoldable pub z_part : Lens (Quaternion D) D
  z_part = record {
    get = λ s. s.z;
    set = λ s a. record s { z = a };
    set-get = λ s. refl;
    get-set = λ s a. refl;
    set-set = λ s a b. refl;
  }

  unfoldable pub position : Lens (Pose D) (Vector3 D)
  position = record {
    get = λ s. s.position;
    set = λ s a. record s { position = a };
    set-get = λ s. refl;
    get-set = λ s a. refl;
    set-set = λ s a b. refl;
  }

  unfoldable pub orientation : Lens (Pose D) (Quaternion D)
  orientation = record {
    get = λ s. s.orientation;
    set = λ s a. record s { orientation = a };
    set-get = λ s. refl;
    get-set = λ s a. refl;
    set-set = λ s a b. refl;
  }

  unfoldable pub pose_header : Lens (PoseStamped D) Header
  pose_header = record {
    get = λ s. s.header;
    set = λ s a. record s { header = a };
    set-get = λ s. refl;
    get-set = λ s a. refl;
    set-set = λ s a b. refl;
  }

  unfoldable pub pose : Lens (PoseStamped D) (Pose D)
  pose = record {
    get = λ s. s.pose;
    set = λ s a. record s { pose = a };
    set-get = λ s. refl;
    get-set = λ s a. refl;
    set-set = λ s a b. refl;
  }

  unfoldable pub linear : Lens (Twist D) (Vector3 D)
  linear = record {
    get = λ s. s.linear;
    set = λ s a. record s { linear = a };
    set-get = λ s. refl;
    get-set = λ s a. refl;
    set-set = λ s a b. refl;
  }

  unfoldable pub angular : Lens (Twist D) (Vector3 D)
  angular = record {
    get = λ s. s.angular;
    set = λ s a. record s { angular = a };
    set-get = λ s. refl;
    get-set = λ s a. refl;
    set-set = λ s a b. refl;
  }

  unfoldable pub twist_header : Lens (TwistStamped D) Header
  twist_header = record {
    get = λ s. s.header;
    set = λ s a. record s { header = a };
    set-get = λ s. refl;
    get-set = λ s a. refl;
    set-set = λ s a b. refl;
  }

  unfoldable pub twist : Lens (TwistStamped D) (Twist D)
  twist = record {
    get = λ s. s.twist;
    set = λ s a. record s { twist = a };
    set-get = λ s. refl;
    get-set = λ s a. refl;
    set-set = λ s a b. refl;
  }

  unfoldable pub first : Lens (Vector2 D) D
  first = record {
    get = λ s. s.x;
    set = λ s a. record s { x = a };
    set-get = λ s. refl;
    get-set = λ s a. refl;
    set-set = λ s a b. refl;
  }

  unfoldable pub second : Lens (Vector2 D) D
  second = record {
    get = λ s. s.y;
    set = λ s a. record s { y = a };
    set-get = λ s. refl;
    get-set = λ s a. refl;
    set-set = λ s a b. refl;
  }
