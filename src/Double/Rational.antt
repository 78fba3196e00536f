-- ===== src/Double/Rational.antt =====
-- Values on which the model runs: unrounded fractions, the infinities and NaN. The square root is
-- rounded down to a whole number.
use any_node.Base.{ℕ, zero, suc, ◌*◌, ◌/◌, leb, Bool, true, false, ◌||◌, not, if◌then◌else◌}
use any_node.Base.Int.{ℤ, pos, negsuc, ◌+ℤ◌, ◌-ℤ◌, ◌*ℤ◌, div_ℤ, ltb_ℤ, eqb_ℤ}
use any_node.Double.Defs.{Double}

-- `frac n k` is n / (k + 1).
pub data Rational : Type 0 where
  frac : ℤ → ℕ → Rational
  inf : Bool → Rational  -- `true` for the negative one
  nan : Rational

abbrev is_negative : ℤ → Bool
is_negative a = ltb_ℤ a (pos 0)

-- n / k at any k: a division by zero has IEEE's results.
over : ℤ → ℕ → Rational
over n (suc k) = frac n k
over n zero = if eqb_ℤ n (pos 0) then nan else inf (is_negative n)

add : Rational → Rational → Rational
unfolding ◌+ℤ◌ ◌*ℤ◌ over
add (frac a b) (frac c d) = over (a *ℤ pos (suc d) +ℤ c *ℤ pos (suc b)) (suc b * suc d)
add (frac a b) y = y
add (inf s) (frac c d) = inf s
add (inf true) (inf true) = inf true
add (inf false) (inf false) = inf false
add x y = nan

neg : Rational → Rational
unfolding ◌-ℤ◌
neg (frac a b) = frac (pos 0 -ℤ a) b
neg (inf s) = inf (not s)
neg nan = nan

xor : Bool → Bool → Bool
xor true b = not b
xor false b = b

scale : Bool → ℤ → Rational
unfolding xor
scale s a = if eqb_ℤ a (pos 0) then nan else inf (xor s (is_negative a))

mul : Rational → Rational → Rational
unfolding ◌*ℤ◌ over scale
mul (frac a b) (frac c d) = over (a *ℤ c) (suc b * suc d)
mul (frac a b) (inf s) = scale s a
mul (inf s) (frac c d) = scale s c
mul (inf s) (inf t) = inf (xor s t)
mul x y = nan

div : Rational → Rational → Rational
unfolding ◌*ℤ◌ over xor
div (frac a b) (frac (pos c) d) = over (a *ℤ pos (suc d)) (suc b * c)
div (frac a b) (frac (negsuc c) d) = over (a *ℤ negsuc d) (suc b * suc c)
div (frac a b) (inf s) = frac (pos 0) 0
div (inf s) (frac c d) = inf (xor s (is_negative c))
div x y = nan

lt : Rational → Rational → Bool
unfolding ◌*ℤ◌
lt (frac a b) (frac c d) = ltb_ℤ (a *ℤ pos (suc d)) (c *ℤ pos (suc b))
lt (frac a b) (inf s) = not s
lt (inf s) (frac c d) = s
lt (inf true) (inf false) = true
lt x y = false

eq : Rational → Rational → Bool
unfolding ◌*ℤ◌
eq (frac a b) (frac c d) = eqb_ℤ (a *ℤ pos (suc d)) (c *ℤ pos (suc b))
eq (inf true) (inf true) = true
eq (inf false) (inf false) = true
eq x y = false

to_long : Rational → ℤ
unfolding div_ℤ
to_long (frac a b) = div_ℤ a (suc b)
to_long x = pos 0

root : ℕ → ℕ
root zero = 0
root (suc n) = let r = root n in if leb (suc r * suc r) (suc n) then suc r else r

sqrt : Rational → Rational
unfolding root
sqrt (frac (pos a) b) = frac (pos (root (a / suc b))) 0
sqrt (inf false) = inf false
sqrt x = nan

is_inf : Rational → Bool
is_inf (inf s) = true
is_inf x = false

is_nan : Rational → Bool
is_nan nan = true
is_nan x = false

instance unfoldable pub rational_double : Double Rational
unfolding add neg mul div sqrt lt eq to_long is_inf is_nan
rational_double = record {
  of_long = λ a. frac a 0;
  to_long = to_long;
  add = add;
  sub = λ x y. add x (neg y);
  mul = mul;
  div = div;
  sqrt = sqrt;
  lt = lt;
  le = λ x y. lt x y || eq x y;
  eq = eq;
  is_inf = is_inf;
  is_nan = is_nan;
  infinity = inf false;
  quiet_nan = nan;
}
