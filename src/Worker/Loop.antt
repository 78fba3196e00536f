-- ===== src/Worker/Loop.antt =====
-- When a worker that is not told to stop calls its callback, and with which event.
use any_node.Base.{
  ℕ, zero, sym, subst, suc, ◌*◌, ◌≡◌, refl, ◌∙◌, ap, arith, Bool, true, false, List, [], ◌∷◌, ◌++◌,
  map, append-nil, map-append, length-map, length, All,
}
use any_node.Base.Int.{pos, ◌+ℤ◌, ◌≤ℤ◌}
use any_node.Double.{Double, literal}
use any_node.Rate
use any_node.Rate.{Rate, SleepEffect}
use any_node.Rate.Timespec.{Timespec, IsNormal, KeepsSign, nanos, duration_nanos}
use any_node.Rate.Schedule.{Readings, AreNormal, IsTimed, sleeps, sleeps_enforced, max_ℤ}
use any_node.Worker.Defs.{
  Worker, begin, repeat, exited, Thread, thread, Input, Effect, call, rate, log, terminated,
  turn_at, turn, turns, event_at, failed,
}
use any_node.Worker.Stop.{turn-thread}

module _ {D : Type 0} where
  -- The time stamps of the events that the callback is given.
  abbrev pub stamps : List (Effect D) → List Timespec
  stamps [] = []
  stamps (call c e ∷ es) = e.time_stamp ∷ stamps es
  stamps (_ ∷ es) = stamps es

  pub stamps-append : (es fs : List (Effect D)) → stamps (es ++ fs) ≡ stamps es ++ stamps fs
  stamps-append [] fs = refl
  stamps-append (call c e ∷ es) fs = ap (◌∷◌ e.time_stamp) (stamps-append es fs)
  stamps-append (_ ∷ es) fs = stamps-append es fs

stamps-rate : (D : Type 0) (es : List SleepEffect) → stamps {D = D} (map rate es) ≡ []
stamps-rate D [] = refl
stamps-rate D (e ∷ es) = stamps-rate D es

abbrev pub readings : Input → Readings
readings i = (i.now, i.later)

module _ {D : Type 0} ⦃d : Double D⦄ where
  turns_exited :
      (n : ℕ) (w : Worker D) (inputs : ℕ → Input)
      → w.handle ≡ thread exited
      → turns n w inputs ≡ (w, [])
  unfolding turns turn_at
  turns_exited zero w inputs e = refl
  turns_exited (suc n) w inputs e =
      rw (turn-thread exited w (inputs 0) e) (rw (turns_exited n w (λ j. inputs (suc j)) e))

  placed :
      (w : Worker D) (h : Thread) (b : Bool)
      → w.handle ≡ h
      → w.running ≡ b
      → record w { handle = h; running = b } ≡ w
  placed w h b e r = λ i. record w { handle = sym e i; running = sym r i }

  stamps-failed :
      (w : Worker D) (b : Bool) (es : List (Effect D)) → stamps (failed w b ++ es) ≡ stamps es
  stamps-failed w true es = refl
  stamps-failed w false es = refl

  abbrev RunsOnce : ℕ → (ℕ → Input) → Worker D → Type 0
  RunsOnce n inputs w =
      let r = turns (suc (suc (suc n))) w inputs in
      (r.0 ≡ record w { handle = thread exited; done = true }) × (stamps r.1 ≡ (inputs 0).now ∷ [])

  begun_once :
      (n : ℕ) (w : Worker D) (inputs : ℕ → Input)
      → d.is_inf w.time_step ≡ true
      → RunsOnce n inputs (record w { handle = thread begin })
  unfolding turns turn turn_at
  begun_once n w inputs h =
      let out : Worker D = record w { handle = thread exited; done = true } in
      rw h (
        rw (turns_exited n out (λ k. inputs (suc (suc (suc k)))) refl) (
          refl,
          ap (◌∷◌ (inputs 0).now) (stamps-failed w (inputs 1).verdict (log terminated ∷ [])),
        ))

  -- With an infinite time step, a thread that starts `run` calls the callback once, whatever
  -- happens, and ends; it leaves `running_` as it is.
  pub runs_once :
      (n : ℕ) (w : Worker D) (inputs : ℕ → Input)
      → w.handle ≡ thread begin
      → d.is_inf w.time_step ≡ true
      → let r = turns (suc (suc (suc n))) w inputs in
        (r.0 ≡ record w { handle = thread exited; done = true })
        × (stamps r.1 ≡ (inputs 0).now ∷ [])
  unfolding turns
  runs_once n w inputs e h =
      subst (RunsOnce n inputs) (placed w (thread begin) w.running e refl)
        (begun_once n (record w { handle = thread begin }) inputs h)

  -- One round of the loop in `run`: call, result, sleep, test.
  round : Worker D → Input → Worker D × List (Effect D)
  round w i = turns 4 w (λ _. i)

  rested : Worker D → Input → Worker D
  rested w i = record w { handle = thread repeat; rate = (Rate.sleep w.rate i.now i.later).0 }

  abbrev IsRound : Input → Worker D → Type 0
  IsRound i w = ((round w i).0 ≡ rested w i) × (stamps (round w i).1 ≡ w.rate.sleep_end_time ∷ [])

  placed-IsRound :
      (w : Worker D) (i : Input) → IsRound i (record w { handle = thread repeat; running = true })
  unfolding round turns turn turn_at rested
  placed-IsRound w i =
      let es = (Rate.sleep w.rate i.now i.later).1 in
      (
        refl,
        ap (◌∷◌ w.rate.sleep_end_time) (
            stamps-failed w i.verdict (map rate es ++ [])
            ∙ ap stamps (append-nil (map rate es))
            ∙ stamps-rate D es),
      )

  round_lem :
      (w : Worker D) (i : Input)
      → w.handle ≡ thread repeat
      → w.running ≡ true
      → ((round w i).0 ≡ rested w i) × (stamps (round w i).1 ≡ w.rate.sleep_end_time ∷ [])
  unfolding round turns rested
  round_lem w i e r = subst (IsRound i) (placed w (thread repeat) true e r) (placed-IsRound w i)

  -- The rounds of the loop, one for each input.
  pub rounds : Worker D → List Input → Worker D × List (Effect D)
  rounds w [] = (w, [])
  rounds w (i ∷ is) = let (w', es) = round w i in let (w'', fs) = rounds w' is in (w'', es ++ fs)

  -- While it runs, the thread stays in the loop, and its rate has slept once for each round.
  pub rounds_lem :
      (w : Worker D) (is : List Input)
      → w.handle ≡ thread repeat
      → w.running ≡ true
      → (rounds w is).0 ≡ record w { rate = sleeps w.rate (map readings is) }
  unfolding rounds sleeps rested
  rounds_lem w [] e r = refl
  rounds_lem w (i ∷ is) e r =
      let (once_round, _) = round_lem w i e r in
      let all : Rate D = sleeps w.rate (map readings (i ∷ is)) in
      rw once_round
        (rounds_lem (rested w i) is refl r ∙ λ j. record w { handle = sym e j; rate = all })

  -- The worker after the first turn, when the loop begins.
  looping : Worker D → Input → Worker D
  looping w start = record w { handle = thread repeat; rate = Rate.reset w.rate start.now }

  turn-begin :
      (w : Worker D) (start : Input)
      → w.handle ≡ thread begin
      → d.is_inf w.time_step ≡ false
      → (turn w start).0 ≡ looping w start
  unfolding turn_at looping
  turn-begin w start e fin = rw (turn-thread begin w start e) (rw fin)

  -- The rate after the rounds, on the schedule.
  sleeps-reset :
      KeepsSign D
      → (r : Rate D) (start : Timespec) (is : List Input) (last : Input) (k : ℕ)
      → r.enforce_rate ≡ true
      → d.eq r.time_step (literal 0) ≡ false
      → duration_nanos r.time_step ≡ pos k
      → IsNormal start
      → All AreNormal (map readings is)
      → IsNormal last.later
      → nanos (sleeps (Rate.reset r start) (map readings (is ++ last ∷ []))).sleep_end_time
        ≡ max_ℤ (nanos start +ℤ pos (suc (length is) * k)) (nanos last.later)
  unfolding Rate.reset
  sleeps-reset sign r start is last k enf nz dur n0 ns nl =
      let fresh = Rate.reset r start in
      let timed : IsTimed fresh = record {
        nonzero = nz;
        forward = subst (λ z. pos 0 ≤ℤ z) (sym dur) (omega arith);
        normal = n0;
      } in
      let s =
        sleeps_enforced sign (map readings is) fresh last.now last.later k enf dur timed ns nl in
      rw (map-append readings is, s.1, s.0, length-map is readings)

  -- With the rate enforced and a time step in use, the callback is called on the schedule that
  -- starts when the thread does: after n + 1 rounds its event's time stamp is n + 1 time steps
  -- after the start, or the clock reading at the end of the last round if that is later.
  pub callback_schedule :
      KeepsSign D
      → (w : Worker D) (start : Input) (is : List Input) (last next : Input) (k : ℕ)
      → w.handle ≡ thread begin
      → w.running ≡ true
      → d.is_inf w.time_step ≡ false
      → w.rate.enforce_rate ≡ true
      → d.eq w.rate.time_step (literal 0) ≡ false
      → duration_nanos w.rate.time_step ≡ pos k
      → IsNormal start.now
      → All AreNormal (map readings is)
      → IsNormal last.later
      → let r = rounds (turn w start).0 (is ++ last ∷ []) in
        (t : Timespec) × ((turn r.0 next).1 ≡ event_at r.0 t ∷ [])
        × (nanos t ≡ max_ℤ (nanos start.now +ℤ pos (suc (length is) * k)) (nanos last.later))
  unfolding turn turn_at looping
  callback_schedule sign w start is last next k e run fin enf nz dur n0 ns nl =
      let all = is ++ last ∷ [] in
      let v = looping w start in
      let u : Worker D = record v { rate = sleeps v.rate (map readings all) } in
      let here : (rounds (turn w start).0 all).0 ≡ u =
        ap (λ x. (rounds x all).0) (turn-begin w start e fin) ∙ rounds_lem v all refl run in
      subst
        (λ x.
          (t : Timespec) × ((turn x next).1 ≡ event_at x t ∷ [])
          × (nanos t ≡ max_ℤ (nanos start.now +ℤ pos (suc (length is) * k)) (nanos last.later)))
        (sym here)
        (
          u.rate.sleep_end_time,
          refl,
          sleeps-reset sign w.rate start.now is last k enf nz dur n0 ns nl,
        )
