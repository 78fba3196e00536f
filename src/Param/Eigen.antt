-- ===== src/Param/Eigen.antt =====
-- The overloads of `getParam` for Eigen's types.
use any_node.Base.{Bool, [], ◌∷◌}
use any_node.Param.Defs.{Server, Vector3, Quaternion, in_turn, into, get_double}
use Prim.Native.String.{String, ◌++◌}

-- `Eigen::Matrix<double, 2, 1>`
pub record Vector2 (D : Type 0) : Type 0 where
  pub x : D
  pub y : D

module _ {D : Type 0} (server : Server D) where
  -- `Eigen::Matrix<double, 3, 1>`
  unfoldable pub get_vector3d : String → Vector3 D → Vector3 D × Bool
  unfolding get_double
  get_vector3d key parameter =
      in_turn
        ((λ v. into (λ a. record v { x = a }) (get_double server (key ++ "/x") v.x))
          ∷ (λ v. into (λ a. record v { y = a }) (get_double server (key ++ "/y") v.y))
          ∷ (λ v. into (λ a. record v { z = a }) (get_double server (key ++ "/z") v.z))
          ∷ [])
        parameter

  -- `Eigen::Quaterniond`, which has the same parts as the message: they are read in another order.
  unfoldable pub get_quaterniond : String → Quaternion D → Quaternion D × Bool
  unfolding get_double
  get_quaterniond key parameter =
      in_turn
        ((λ q. into (λ a. record q { x = a }) (get_double server (key ++ "/x") q.x))
          ∷ (λ q. into (λ a. record q { y = a }) (get_double server (key ++ "/y") q.y))
          ∷ (λ q. into (λ a. record q { z = a }) (get_double server (key ++ "/z") q.z))
          ∷ (λ q. into (λ a. record q { w = a }) (get_double server (key ++ "/w") q.w))
          ∷ [])
        parameter

  unfoldable pub get_vector2 : String → Vector2 D → Vector2 D × Bool
  unfolding get_double
  get_vector2 key parameter =
      in_turn
        ((λ v. into (λ a. record v { x = a }) (get_double server (key ++ "/x") v.x))
          ∷ (λ v. into (λ a. record v { y = a }) (get_double server (key ++ "/y") v.y))
          ∷ [])
        parameter
