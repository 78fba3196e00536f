-- ===== src/Rate/Schedule.antt =====
-- The points in time that `Rate::sleep` schedules, with the rate enforced and without.
use any_node.Base.{
  ℕ, suc, ◌*◌, ◌≡◌, ◌∙◌, ap, arith, true, false, if◌then◌else◌, List, [], ◌∷◌, ◌++◌, length, All,
}
use any_node.Base.Int.{ℤ, pos, ◌+ℤ◌, ◌≤ℤ◌, ltb_ℤ, int_laws}
use native.Mathlib.Nat.{one-mul}
use any_node.Double.{Double, literal}
use any_node.Rate.Timespec.{Timespec, IsNormal, nanos, add_duration, duration_nanos, KeepsSign}
use any_node.Rate.Timespec.Laws.{nanos-add_duration, add_duration-IsNormal}
use any_node.Rate.Defs.{Rate, sleep, wake, check_thresholds, advance}

abbrev pub max_ℤ : ℤ → ℤ → ℤ
max_ℤ a b = if ltb_ℤ a b then b else a

-- A call of `sleep`: its two clock readings.
abbrev pub Readings : Type 0
Readings = Timespec × Timespec

abbrev pub AreNormal : Readings → Type 0
AreNormal c = IsNormal c.0 × IsNormal c.1

later_step : (a : ℤ) (n k : ℕ) → a +ℤ pos k +ℤ pos (n * k) ≡ a +ℤ pos (suc n * k)
later_step a n k = omega int_laws

module _ {D : Type 0} ⦃d : Double D⦄ where
  -- `sleep`, called once for each entry.
  unfoldable pub sleeps : Rate D → List Readings → Rate D
  sleeps r [] = r
  sleeps r (c ∷ cs) = sleeps (sleep r c.0 c.1).0 cs

  -- The two phases before `advance` leave the schedule alone.
  pub check_thresholds_keeps :
      (r : Rate D)
      → let q = (check_thresholds r).0 in
        (q.options ≡ r.options)
        × (q.step_time ≡ r.step_time)
        × (q.sleep_end_time ≡ r.sleep_end_time)
  unfolding check_thresholds
  check_thresholds_keeps r = ground arith

  advance_keeps : (r : Rate D) (later : Timespec) → (advance r later).0.options ≡ r.options
  unfolding advance
  advance_keeps r later = ground arith

  pub options-sleep :
      (r : Rate D) (now later : Timespec) → (sleep r now later).0.options ≡ r.options
  unfolding sleep wake
  options-sleep r now later = ground (
    arith,
    check_thresholds_keeps (wake r now),
    advance_keeps (check_thresholds (wake r now)).0 later,
  )

  -- The point in time that the next call of `sleep` aims at.
  abbrev pub due : Rate D → ℤ
  due r = nanos r.step_time +ℤ duration_nanos r.time_step

  -- The rate is used with a time step: not 0, and not negative when counted in nanoseconds.
  pub record IsTimed (r : Rate D) : Type 0 where
    pub nonzero : d.eq r.time_step (literal 0) ≡ false
    pub forward : pos 0 ≤ℤ duration_nanos r.time_step
    pub normal : IsNormal r.step_time

  -- What one call leaves: `q` from `r`, with the second clock reading `later`.
  abbrev pub Follows : Rate D → Timespec → Rate D → Type 0
  Follows r later q =
      (nanos q.sleep_end_time ≡ max_ℤ (due r) (nanos later))
      × (nanos q.step_time ≡ (if r.enforce_rate then due r else max_ℤ (due r) (nanos later)))
      × IsTimed q

  checked : Rate D → Timespec → Rate D
  checked r now = (check_thresholds (wake r now)).0

  checked_keeps :
      (r : Rate D) (now : Timespec)
      → ((checked r now).options ≡ r.options) × ((checked r now).step_time ≡ r.step_time)
  unfolding checked wake
  checked_keeps r now = let k = check_thresholds_keeps (wake r now) in (k.0, k.1)

  sleep_timed :
      (r : Rate D) (now later : Timespec)
      → d.eq r.time_step (literal 0) ≡ false
      → (sleep r now later).0 ≡ (advance (checked r now) later).0
  unfolding sleep checked
  sleep_timed r now later h = rw h

  checked-IsTimed : (r : Rate D) (now : Timespec) → IsTimed r → IsTimed (checked r now)
  checked-IsTimed r now v =
      let k = checked_keeps r now in
      record { nonzero = rw k.0 v.nonzero; forward = rw k.0 v.forward; normal = rw k.1 v.normal }

  checked-due : (r : Rate D) (now : Timespec) → due (checked r now) ≡ due r
  checked-due r now = let k = checked_keeps r now in rw (k.0, k.1)

  module _ (sign : KeepsSign D) where
    pub advance-Follows :
        (r : Rate D) (later : Timespec)
        → IsTimed r
        → IsNormal later
        → Follows r later (advance r later).0
    unfolding advance
    advance-Follows r later v w =
        let step = add_duration r.step_time r.time_step in
        let normal = add_duration-IsNormal r.step_time r.time_step v.forward v.normal in
        ground (arith, sign later step w normal, nanos-add_duration r.step_time r.time_step)

    -- With a time step, `sleep` ends at the later of the point that it aims at and the clock; it
    -- moves the step time by one time step if the rate is enforced, else to its own end.
    pub sleep-Follows :
        (r : Rate D) (now later : Timespec)
        → IsTimed r
        → IsNormal later
        → Follows r later (sleep r now later).0
    sleep-Follows r now later v w =
        rw (sleep_timed r now later v.nonzero)
          (carry_over (advance-Follows (checked r now) later (checked-IsTimed r now v) w))
      where
        carry_over : {q : Rate D} → Follows (checked r now) later q → Follows r later q
        carry_over f = ground (arith, f, checked-due r now, checked_keeps r now)

    sleep_enforced :
        (r : Rate D) (now later : Timespec) (k : ℕ)
        → r.enforce_rate ≡ true
        → duration_nanos r.time_step ≡ pos k
        → IsTimed r
        → IsNormal later
        → let q = (sleep r now later).0 in
          (nanos q.step_time ≡ nanos r.step_time +ℤ pos k)
          × (nanos q.sleep_end_time ≡ max_ℤ (nanos q.step_time) (nanos later))
    sleep_enforced r now later k e dur v w =
        let f = sleep-Follows r now later v w in
        let step : nanos (sleep r now later).0.step_time ≡ due r =
          f.1 ∙ ap (λ b. if b then due r else max_ℤ (due r) (nanos later)) e in
        (step ∙ ap (◌+ℤ◌ (nanos r.step_time)) dur, rw step f.0)

    -- One call after the other, from a rate that is enforced: after `n` calls the step time has
    -- moved by `n` time steps, whatever the clock said in between, and the last call ended at the
    -- later of that point and the clock.
    pub sleeps_enforced :
        (cs : List Readings) (r : Rate D) (now later : Timespec) (k : ℕ)
        → r.enforce_rate ≡ true
        → duration_nanos r.time_step ≡ pos k
        → IsTimed r
        → All AreNormal cs
        → IsNormal later
        → let n = suc (length cs) in
          let q = sleeps r (cs ++ (now, later) ∷ []) in
          (nanos q.step_time ≡ nanos r.step_time +ℤ pos (n * k))
          × (nanos q.sleep_end_time ≡ max_ℤ (nanos q.step_time) (nanos later))
    unfolding sleeps
    sleeps_enforced [] r now later k e dur v h w =
        rw one-mul (sleep_enforced r now later k e dur v w)
    sleeps_enforced (c ∷ cs) r now later k e dur v h w =
        let q = (sleep r c.0 c.1).0 in
        let kept = options-sleep r c.0 c.1 in
        let first = sleep_enforced r c.0 c.1 k e dur v h.0.1 in
        let rest =
          sleeps_enforced cs q now later k (rw kept e) (rw kept dur)
            (sleep-Follows r c.0 c.1 v h.0.1).2 h.1 w in
        (
          rest.0
              ∙ ap (λ t. t +ℤ pos (suc (length cs) * k)) first.0
              ∙ later_step (nanos r.step_time) (suc (length cs)) k,
          rest.1,
        )

    -- If the rate is not enforced, no step is shorter than the time step: from a rate whose last
    -- call ended at the step time, the next call ends at least one time step later, and again at
    -- the step time.
    pub sleep_unenforced :
        (r : Rate D) (now later : Timespec)
        → r.enforce_rate ≡ false
        → IsTimed r
        → IsNormal later
        → nanos r.sleep_end_time ≡ nanos r.step_time
        → let q = (sleep r now later).0 in
          (nanos r.sleep_end_time +ℤ duration_nanos r.time_step ≤ℤ nanos q.sleep_end_time)
          × (nanos later ≤ℤ nanos q.sleep_end_time)
          × (nanos q.sleep_end_time ≡ nanos q.step_time)
    sleep_unenforced r now later e v w same =
        let f = sleep-Follows r now later v w in ground (arith, f, same)
