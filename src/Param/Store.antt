-- ===== src/Param/Store.antt =====
-- param_io/include/param_io/set_param.hpp, and the methods of any_node/include/any_node/Node.hpp that
-- read and write parameters. The parameter server is outside: a state with a value of one type under
-- each key.
use any_node.Base.{
  ℕ, ◌^◌, ◌<◌, ◌≡◌, ap, ◌∙◌, arith, ltb, Bool, true, false, if◌then◌else◌, Option, some,
}
use any_node.Base.Int.{ℤ}
use any_node.Base.Dict.{string_eq}
use any_node.Param.Defs.{get_param, param, int32, get_uint32}
use Prim.Native.String.{String}

-- `ros::NodeHandle::getParam` and `setParam` for one type.
pub record Store (V : Type 0) : Type 1 where
  pub State : Type 0
  pub get : State → String → Option V
  pub set : State → String → V → State

-- What is written is there, until something else is written. (What a write does under other keys, in the
-- tree of names that the server keeps, is not said.)
pub record IsLawful {V : Type 0} (S : Store V) : Type 0 where
  pub get-set : (s : S.State) (key : String) (v : V) → S.get (S.set s key v) key ≡ some v

module _ {V : Type 0} (S : Store V) where
  unfoldable pub set_param : S.State → String → V → S.State
  set_param s key v = S.set s key v

  -- `Node::getParam`, `Node::param` and `Node::setParam`.
  unfoldable pub node_get_param : S.State → String → V → V × Bool
  node_get_param s key parameter = get_param (S.get s key) parameter

  unfoldable pub node_param : S.State → String → V → V
  node_param s key default = param (S.get s key) default

  unfoldable pub node_set_param : S.State → String → V → S.State
  node_set_param s key v = set_param s key v

get_uint32-int32 :
    (n parameter : ℕ)
    → n < 2 ^ 32
    → get_uint32 (some (int32 n)) parameter
      ≡ (if ltb n (2 ^ 31) then (n, true) else (parameter, false))
unfolding get_uint32
get_uint32-int32 n parameter h = ground arith

module _ (S : Store ℤ) (lawful : IsLawful S) where
  -- An unsigned number that is written as the `int` that it converts to is read again if it is less
  -- than 2 ^ 31; a greater one is refused, and the parameter stays.
  get_uint32-set_param :
      (s : S.State) (key : String) (n parameter : ℕ)
      → n < 2 ^ 32
      → get_uint32 (S.get (node_set_param S s key (int32 n)) key) parameter
        ≡ (if ltb n (2 ^ 31) then (n, true) else (parameter, false))
  unfolding node_set_param set_param get_uint32
  get_uint32-set_param s key n parameter h =
      ap (λ x. get_uint32 x parameter) (lawful.get-set s key (int32 n))
      ∙ get_uint32-int32 n parameter h
