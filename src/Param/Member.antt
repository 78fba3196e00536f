-- ===== src/Param/Member.antt =====
-- `getMember` and `internal::getAbsoluteKey`.
use any_node.Base.{◌==◌, Bool, true, false, if◌then◌else◌, Option, none, some}
use Prim.Native.Char.{code}
use Prim.Native.String.{String, ◌++◌}

-- What `getMember` reports.
pub data Report : Type 0 where
  fine no_member caught_exception : Report

-- `getMember`, by what the XML-RPC library answers: whether the value has the member, and the member
-- as a `T`; none where it throws. The last argument is `T()`.
abbrev pub with_member {ℓ} : {T : Type ℓ} → Option Bool → Option T → T → T × Report
with_member none value empty = (empty, caught_exception)
with_member (some false) value empty = (empty, no_member)
with_member (some true) none empty = (empty, caught_exception)
with_member (some true) (some value) empty = (value, fine)

unfoldable pub get_member {ℓ} :
    {T : Type ℓ} → (String → Option Bool) → (String → Option T) → T → String → T × Report
get_member has_member member empty key = with_member (has_member key) (member key) empty

-- By the node's namespace.
unfoldable pub get_absolute_key : String → String → String
get_absolute_key namespace String.[] = String.[]
get_absolute_key namespace (String.◌∷◌ c rest) =
    if code c == 47 then String.◌∷◌ c rest else namespace ++ "/" ++ String.◌∷◌ c rest
