-- ===== src/Manager/Order.antt =====
-- The order of an `unordered_map`, which nothing specifies: managers with the same workers under the
-- same names.
pub mod Loops
pub mod Ends
pub mod Named
pub mod Steps
use any_node.Base.{◌≡◌, ap, Option}
use any_node.Base.Dict.{find, string_eq}
use any_node.Worker.{Worker}
use any_node.Manager.Defs.{Manager}
use Prim.Native.String.{String}
use mathlib.Core.Quot
use mathlib.Core.Quot.{Quot}
use text.Mathlib.TextEquality.{IsScalar-prop}

abbrev pub SameEntries : {D : Type 0} → Manager D → Manager D → Type 0
SameEntries m n = (name : String) → find name m ≡ find name n

-- What the map holds, without an order.
abbrev pub Contents : Type 0 → Type 0
Contents D = Quot (SameEntries {D = D})

abbrev pub contents : {D : Type 0} → Manager D → Contents D
contents m = Quot.mk m

Worker_set : {D : Type 0} → IsSet D → IsSet (Option (Worker D))
Worker_set h = hlevel (h, IsScalar-prop)

-- What is found under a name does not depend on the order.
pub lookup : {D : Type 0} → IsSet D → String → Contents D → Option (Worker D)
lookup h name = Quot.lift (Worker_set h) (find name) λ m n s. s name

pub exact : {D : Type 0} → IsSet D → (m n : Manager D) → contents m ≡ contents n → SameEntries m n
unfolding lookup
exact h m n e name = ap (lookup h name) e
