-- ===== src/Rate/Changes/Drift.antt =====
-- The points in time that `sleep` schedules while the options are changed.
use any_node.Base.{
  ℕ, ◌+◌, ◌≡◌, sym, subst, ◌∙◌, arith, Bool, true, false, if◌then◌else◌, List, [], ◌∷◌, ◌++◌, All,
}
use any_node.Base.Int.{ℤ, pos, ◌+ℤ◌, ◌-ℤ◌, ◌≤ℤ◌, pos_part, int_laws}
use any_node.Double.{Double, literal}
use any_node.Rate.Timespec.{IsNormal, nanos, duration_nanos, KeepsSign}
use any_node.Rate.Options.{RateOptions}
use any_node.Rate.Defs.{Rate, wake, count_error, count_warning}
use any_node.Rate.Schedule.{max_ℤ, advance-Follows}
use any_node.Rate.Changes.{Found, Call, check_found, advance_found, sleep_found, sleeps_found}

overrun : (a b : ℤ) → max_ℤ a b ≡ a +ℤ pos (pos_part (b -ℤ a))
overrun a b = grind int_laws

aims :
    (a b : ℤ) (e : Bool)
    → (if e then a else max_ℤ a b) ≡ a +ℤ pos (if e then 0 else pos_part (b -ℤ a))
aims a b true = omega int_laws
aims a b false = overrun a b

last_sum : (s t : ℤ) (n : ℕ) → s +ℤ t +ℤ pos n ≡ s +ℤ (t +ℤ pos 0) +ℤ pos (n + 0)
last_sum s t n = omega int_laws

more_sum : (s t u : ℤ) (n m : ℕ) → s +ℤ t +ℤ pos n +ℤ u +ℤ pos m ≡ s +ℤ (t +ℤ u) +ℤ pos (n + m)
more_sum s t u n m = omega int_laws

module _ {D : Type 0} ⦃d : Double D⦄ where
  pub record IsUsed (c : Call D) : Type 0 where
    pub nonzero : d.eq c.0.used_step (literal 0) ≡ false
    pub next_nonzero : d.eq c.0.next_step (literal 0) ≡ false
    pub forward : pos 0 ≤ℤ duration_nanos c.0.next_step
    pub normal : IsNormal c.1.1

  -- How long after the point that it aims at a call ends for which the rate is not enforced.
  abbrev pub late : ℤ → Call D → ℕ
  late aim (f, c) = if f.is_enforced then 0 else pos_part (nanos c.1 -ℤ aim)

  -- The sums of the time steps that the calls move the step time by, and of what they are late, from a
  -- step time on.
  abbrev pub planned : List (Call D) → ℤ
  planned [] = pos 0
  planned (c ∷ cs) = duration_nanos c.0.next_step +ℤ planned cs

  abbrev pub slip : ℤ → List (Call D) → ℕ
  slip step [] = 0
  slip step (c ∷ cs) =
      let aim = step +ℤ duration_nanos c.0.next_step in
      let n = late aim c in n + slip (aim +ℤ pos n) cs

  count_keeps :
      (r : Rate D) (f : Found D) → let q = (check_found r f).0 in q.step_time ≡ r.step_time
  unfolding check_found count_error count_warning
  count_keeps r f = ground arith

  module _ (sign : KeepsSign D) where
    advance_found_lem :
        (r : Rate D) (c : Call D)
        → IsNormal r.step_time
        → IsUsed c
        → let q = (advance_found r c.0 c.1.1).0 in
          let aim = nanos r.step_time +ℤ duration_nanos c.0.next_step in
          (nanos q.step_time ≡ aim +ℤ pos (late aim c))
          × (nanos q.sleep_end_time ≡ max_ℤ aim (nanos c.1.1))
          × IsNormal q.step_time
    unfolding advance_found
    advance_found_lem r c v u =
        let found : RateOptions D = record r.options {
          time_step = c.0.next_step;
          enforce_rate = c.0.is_enforced;
        } in
        let aim = nanos r.step_time +ℤ duration_nanos c.0.next_step in
        let f =
          advance-Follows sign (record r { options = found }) c.1.1
            record { nonzero = u.next_nonzero; forward = u.forward; normal = v } u.normal in
        (f.1 ∙ aims aim (nanos c.1.1) c.0.is_enforced, f.0, f.2.normal)

    sleep_found_lem :
        (r : Rate D) (c : Call D)
        → IsNormal r.step_time
        → IsUsed c
        → let q = (sleep_found r c).0 in
          let aim = nanos r.step_time +ℤ duration_nanos c.0.next_step in
          (nanos q.step_time ≡ aim +ℤ pos (late aim c))
          × (nanos q.sleep_end_time ≡ max_ℤ aim (nanos c.1.1))
          × IsNormal q.step_time
    unfolding sleep_found wake
    sleep_found_lem r c v u =
        let woken = wake r c.1.0 in
        let checked = (check_found woken c.0).0 in
        let kept = count_keeps woken c.0 in
        rw (u.nonzero) (
          subst
            (λ t.
              let q = (advance_found checked c.0 c.1.1).0 in
              let aim = nanos t +ℤ duration_nanos c.0.next_step in
              (nanos q.step_time ≡ aim +ℤ pos (late aim c))
              × (nanos q.sleep_end_time ≡ max_ℤ aim (nanos c.1.1))
              × IsNormal q.step_time)
            kept (advance_found_lem checked c (subst IsNormal (sym kept) v) u))

    -- One call after the other, with doubles that keep the sign of a difference of clock readings,
    -- whatever values the reads of the options find, so long as the time steps are not 0 and do not go
    -- back: the step time has moved by the time steps that the calls found and by what those were late
    -- that found the rate not enforced; the last call ended at the later of the point that it aimed at
    -- and the clock.
    pub sleeps_found_lem :
        (cs : List (Call D)) (r : Rate D) (c : Call D)
        → IsNormal r.step_time
        → All IsUsed cs
        → IsUsed c
        → let s = sleeps_found r cs in
          let q = sleeps_found r (cs ++ c ∷ []) in
          let aim = nanos s.step_time +ℤ duration_nanos c.0.next_step in
          (nanos q.step_time
            ≡ nanos r.step_time
              +ℤ planned (cs ++ c ∷ [])
              +ℤ pos (slip (nanos r.step_time) (cs ++ c ∷ [])))
          × (nanos q.sleep_end_time ≡ max_ℤ aim (nanos c.1.1))
    unfolding sleeps_found
    sleeps_found_lem [] r c v us u = let f = sleep_found_lem r c v u in (f.0 ∙ last_sum _ _ _, f.1)
    sleeps_found_lem (b ∷ cs) r c v us u =
        let f = sleep_found_lem r b v us.0 in
        let rest = sleeps_found_lem cs (sleep_found r b).0 c f.2 us.1 u in
        (rest.0 ∙ rw f.0 (more_sum _ _ _ _ _), rest.1)
