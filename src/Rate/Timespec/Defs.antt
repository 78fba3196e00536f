-- ===== src/Rate/Timespec/Defs.antt =====
-- `struct timespec`, `Rate::GetDuration` and `Rate::AddDuration` (any_worker/src/Rate.cpp).
use any_node.Base.{ℕ, ◌≡◌}
use any_node.Base.Int.{ℤ, pos, ◌+ℤ◌, ◌-ℤ◌, ◌*ℤ◌, ◌≤ℤ◌, ◌<ℤ◌, div_ℤ, mod_ℤ, ltb_ℤ}
use any_node.Double.{Double, literal}

-- `tv_sec` and `tv_nsec` are signed. (Their overflow is not modelled.)
pub record Timespec : Type 0 where
  pub sec : ℤ
  pub nsec : ℤ

abbrev pub zero_time : Timespec
zero_time = record { sec = pos 0; nsec = pos 0 }

abbrev pub nsec_per_sec : ℕ
nsec_per_sec = 1_000_000_000

-- The point in time in nanoseconds.
unfoldable pub nanos : Timespec → ℤ
nanos t = t.sec *ℤ pos nsec_per_sec +ℤ t.nsec

-- What a clock reading satisfies, and `clock_nanosleep` requires.
pub record IsNormal (t : Timespec) : Type 0 where
  pub nonneg : pos 0 ≤ℤ t.nsec
  pub below : t.nsec <ℤ pos nsec_per_sec

-- `tv_nsec += n`, and the carry into `tv_sec`; `/` and `%` truncate.
abbrev pub carry : Timespec → ℤ → Timespec
carry t n =
    let total = t.nsec +ℤ n in
    record { sec = t.sec +ℤ div_ℤ total nsec_per_sec; nsec = mod_ℤ total nsec_per_sec }

module _ {D : Type 0} ⦃d : Double D⦄ where
  unfoldable pub sec_per_nsec : D
  sec_per_nsec = d.div (literal 1) (literal nsec_per_sec)

  unfoldable pub get_duration : Timespec → Timespec → D
  unfolding sec_per_nsec
  get_duration start end =
      d.add (d.of_long (end.sec -ℤ start.sec))
        (d.mul (d.of_long (end.nsec -ℤ start.nsec)) sec_per_nsec)

  -- The nanoseconds that `add_duration` adds.
  abbrev pub duration_nanos : D → ℤ
  duration_nanos duration = d.to_long (d.mul duration (literal nsec_per_sec))

  unfoldable pub add_duration : Timespec → D → Timespec
  add_duration time duration = carry time (duration_nanos duration)

-- Rounding does not change the sign of a duration between clock readings.
abbrev pub KeepsSign : (D : Type 0) ⦃d : Double D⦄ → Type 0
KeepsSign D ⦃d⦄ =
    (s t : Timespec)
    → IsNormal s
    → IsNormal t
    → d.lt (get_duration s t) (literal 0) ≡ ltb_ℤ (nanos t) (nanos s)
