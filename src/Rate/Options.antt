-- ===== src/Rate/Options.antt =====
-- any_worker/include/any_worker/RateOptions.hpp. The fields are atomic; one call of `Rate::sleep`
-- reads each as if nobody wrote it meanwhile.
use any_node.Base.{◌≡◌, refl, Bool, true, ◌&&◌, not}
use any_node.Base.Int.{ℤ, pos}
use any_node.Double.{Double, literal}
use Prim.Native.String.{String}

pub record RateOptions (D : Type 0) : Type 0 where
  pub name : String
  pub time_step : D
  pub max_factor_warning : D
  pub max_factor_error : D
  pub enforce_rate : Bool
  pub clock_id : ℤ

-- operator=, member by member.
unfoldable pub assign : {D : Type 0} → RateOptions D → RateOptions D → RateOptions D
assign o other = record o {
  name = other.name;
  time_step = other.time_step;
  max_factor_warning = other.max_factor_warning;
  max_factor_error = other.max_factor_error;
  enforce_rate = other.enforce_rate;
  clock_id = other.clock_id;
}

-- A constant of the platform's <time.h>.
abbrev pub clock_monotonic : ℤ
clock_monotonic = pos 1

module _ {D : Type 0} ⦃d : Double D⦄ where
  -- The constructor at its defaults for all but the name and the time step.
  unfoldable pub rate_options : String → D → RateOptions D
  rate_options name time_step = record {
    name = name;
    time_step = time_step;
    max_factor_warning = literal 1;
    max_factor_error = literal 10;
    enforce_rate = true;
    clock_id = clock_monotonic;
  }

  -- The copy constructor: the members' initialisers, then `operator=`.
  unfoldable pub copy : RateOptions D → RateOptions D
  copy other = assign (rate_options "" (literal 0)) other

  -- The move constructor, which takes the members over one by one.
  unfoldable pub move : RateOptions D → RateOptions D
  move other = record {
    name = other.name;
    time_step = other.time_step;
    max_factor_warning = other.max_factor_warning;
    max_factor_error = other.max_factor_error;
    enforce_rate = other.enforce_rate;
    clock_id = other.clock_id;
  }

  pub is_valid : RateOptions D → Bool
  is_valid o =
      d.le (literal 0) o.time_step
      && not (d.is_inf o.time_step)
      && not (d.is_nan o.time_step)
      && d.le (literal 0) o.max_factor_warning
      && not (d.is_nan o.max_factor_warning)
      && d.le (literal 0) o.max_factor_error
      && not (d.is_nan o.max_factor_error)

  -- No member is left out.
  copy_lem : (other : RateOptions D) → (copy other ≡ other) × (move other ≡ other)
  unfolding copy assign move
  copy_lem other = (refl, refl)
