-- ===== src/Base/Dict.antt =====
-- Maps as association lists, over a type of keys with a Boolean equality.
use any_node.Base.Tests.{if◌then◌else◌, Bool-cases}
use any_node.Base.Tests
use Prim.Native.Nat.{ℕ}
use Prim.Native.String.{String}
use mathlib.Core.Path.{◌≡◌, refl}
use mathlib.Core.Logic.{◌↔◌}
use mathlib.Core.Bool.{Bool, true}
use mathlib.Core.Option.{Option, none, some}
use mathlib.Core.List.{List, [], ◌∷◌}
use native.Mathlib.Omega.{arith}
use text.Mathlib.Text.{◌==◌ as str_eq}
use text.Mathlib.TextEquality.{eq_iff}

pub record Eq {ℓ} (A : Type ℓ) : Type ℓ where
  pub beq : A → A → Bool
  pub beq_iff : (a b : A) → (beq a b ≡ true) ↔ (a ≡ b)

instance abbrev pub nat_eq : Eq ℕ
nat_eq = record { beq = Tests.◌==◌; beq_iff = Tests.==_iff }

instance abbrev pub string_eq : Eq String
string_eq = record { beq = str_eq; beq_iff = eq_iff }

pub beq-sym {ℓ} : {K : Type ℓ} ⦃e : Eq K⦄ (a b : K) → e.beq a b ≡ e.beq b a
beq-sym ⦃e⦄ a b = ground (arith, e.beq_iff a b, e.beq_iff b a)

pub beq_refl {ℓ} : {K : Type ℓ} ⦃e : Eq K⦄ (k : K) → e.beq k k ≡ true
beq_refl ⦃e⦄ k = (e.beq_iff k k).1 refl

module _ {ℓ κ} {K : Type ℓ} ⦃e : Eq K⦄ {V : Type κ} where
  unfoldable pub find : K → List (K × V) → Option V
  find k [] = none
  find k ((j, v) ∷ m) = if e.beq j k then some v else find k m

  -- Replaces the entry of `k`, or adds one at the end.
  unfoldable pub put : K → V → List (K × V) → List (K × V)
  put k v [] = (k, v) ∷ []
  put k v ((j, w) ∷ m) = if e.beq j k then (k, v) ∷ m else (j, w) ∷ put k v m

  unfoldable pub erase : K → List (K × V) → List (K × V)
  erase k [] = []
  erase k ((j, w) ∷ m) = if e.beq j k then erase k m else (j, w) ∷ erase k m

  pub find-put :
      (j k : K) (v : V) (m : List (K × V))
      → find j (put k v m) ≡ (if e.beq k j then some v else find j m)
  unfolding find put
  find-put j k v [] = refl
  find-put j k v ((i, w) ∷ m) =
      ground (arith, find-put j k v m, e.beq_iff i k, e.beq_iff i j, e.beq_iff k j)

  pub find-put_self : (k : K) (v : V) (m : List (K × V)) → find k (put k v m) ≡ some v
  find-put_self k v m = rw (find-put k k v m, beq_refl k)

  pub find-erase :
      (j k : K) (m : List (K × V)) → find j (erase k m) ≡ (if e.beq k j then none else find j m)
  unfolding find erase
  find-erase j k [] = ground arith
  find-erase j k ((i, w) ∷ m) =
      ground (arith, find-erase j k m, e.beq_iff i k, e.beq_iff i j, e.beq_iff k j)

  pub put-put : (k : K) (v w : V) (m : List (K × V)) → put k v (put k w m) ≡ put k v m
  unfolding put
  put-put k v w [] = rw (beq_refl k)
  put-put k v w ((j, u) ∷ m) = ground (arith, put-put k v w m, e.beq_iff j k, beq_refl k)

  pub erase-put : (k : K) (v : V) (m : List (K × V)) → erase k (put k v m) ≡ erase k m
  unfolding put erase
  erase-put k v [] = rw (beq_refl k)
  erase-put k v ((j, u) ∷ m) = ground (arith, erase-put k v m, e.beq_iff j k, beq_refl k)

pub ruleset dict_laws = (find-put, find-erase, beq_refl)
