-- ===== src/Rate/Timespec/Laws.antt =====
-- What `AddDuration` does to the nanoseconds and to the normal form.
use any_node.Base.{◌+◌, ◌*◌, ◌≡◌, arith}
use any_node.Base.Int.{
  ℤ, pos, pos_part, neg_part, ◌+ℤ◌, ◌-ℤ◌, ◌*ℤ◌, ◌≤ℤ◌, ◌<ℤ◌, div_ℤ, mod_ℤ, ltb_ℤ, int_laws,
}
use any_node.Double.{Double}
use any_node.Double.Rational.{Rational, rational_double}
use any_node.Rate.Timespec.Defs.{
  Timespec, IsNormal, nsec_per_sec, nanos, carry, duration_nanos, add_duration, get_duration,
  KeepsSign,
}

module _ (a : ℤ) where
  scaled_parts :
      (pos_part (a *ℤ pos nsec_per_sec) ≡ pos_part a * nsec_per_sec)
      × (neg_part (a *ℤ pos nsec_per_sec) ≡ neg_part a * nsec_per_sec)
  unfolding ◌*ℤ◌
  scaled_parts = ground arith

  -- Truncated division, by parts.
  pos-div-mod :
      pos_part (div_ℤ a nsec_per_sec) * nsec_per_sec + pos_part (mod_ℤ a nsec_per_sec) ≡ pos_part a
  unfolding div_ℤ mod_ℤ
  pos-div-mod = ground arith

  neg-div-mod :
      neg_part (div_ℤ a nsec_per_sec) * nsec_per_sec + neg_part (mod_ℤ a nsec_per_sec) ≡ neg_part a
  unfolding div_ℤ mod_ℤ
  neg-div-mod = ground arith

  mod_ℤ-normal :
      pos 0 ≤ℤ a → (pos 0 ≤ℤ mod_ℤ a nsec_per_sec) × (mod_ℤ a nsec_per_sec <ℤ pos nsec_per_sec)
  unfolding mod_ℤ
  mod_ℤ-normal h = ground arith

ruleset nanos_laws = (int_laws, scaled_parts, pos-div-mod, neg-div-mod)

nanos-carry : (t : Timespec) (n : ℤ) → nanos (carry t n) ≡ nanos t +ℤ n
unfolding nanos
nanos-carry t n = omega nanos_laws

carry-IsNormal : (t : Timespec) (n : ℤ) → pos 0 ≤ℤ n → IsNormal t → IsNormal (carry t n)
carry-IsNormal t n h v =
    let (lo, hi) = mod_ℤ-normal (t.nsec +ℤ n) (omega int_laws) in record { nonneg = lo; below = hi }

module _ {D : Type 0} ⦃d : Double D⦄ where
  -- `AddDuration` adds its duration to the nanosecond, for every point in time and every duration.
  pub nanos-add_duration :
      (t : Timespec) (x : D) → nanos (add_duration t x) ≡ nanos t +ℤ duration_nanos x
  unfolding add_duration
  nanos-add_duration t x = nanos-carry t (duration_nanos x)

  -- `AddDuration` keeps the nanosecond field in its range, if it was there and the duration is not
  -- negative.
  pub add_duration-IsNormal :
      (t : Timespec) (x : D) → pos 0 ≤ℤ duration_nanos x → IsNormal t → IsNormal (add_duration t x)
  unfolding add_duration
  add_duration-IsNormal t x = carry-IsNormal t (duration_nanos x)

one_parts : (a : ℤ) → (pos_part (a *ℤ pos 1) ≡ pos_part a) × (neg_part (a *ℤ pos 1) ≡ neg_part a)
unfolding ◌*ℤ◌
one_parts a = ground arith

ltb_ℤ-shift :
    (x a b : ℤ)
    → pos_part x + neg_part a + pos_part b ≡ neg_part x + pos_part a + neg_part b
    → ltb_ℤ x (pos 0) ≡ ltb_ℤ a b
ltb_ℤ-shift x a b h = ground arith

-- Fractions do not round, so the law can be met.
pub rational-KeepsSign : KeepsSign Rational
unfolding rational_double get_duration nanos
rational-KeepsSign s t p q =
    ltb_ℤ-shift
      (((t.sec -ℤ s.sec) *ℤ pos 1000000000 +ℤ (t.nsec -ℤ s.nsec) *ℤ (pos 1 *ℤ pos 1) *ℤ pos 1)
        *ℤ pos 1)
      (nanos t) (nanos s) (omega (nanos_laws, one_parts))
