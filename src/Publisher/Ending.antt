-- ===== src/Publisher/Ending.antt =====
-- How the thread ends, and how a call of `sendRos` does.
use any_node.Base.{
  ℕ, zero, suc, ◌+◌, ◌*◌, ◌-◌, ◌≡◌, refl, sym, ap, subst, arith, ltb, Bool, true, false,
  if◌then◌else◌, List, [], ◌∷◌, ◌++◌, length,
}
use any_node.Publisher.Defs.{
  Publisher, Spot, outside, looping, waiting, sending, popping, holding, ended, Event, closed,
  notify_thread, turn_at, turn, send_ros, shutdown, joined,
}
use any_node.Publisher.Events.{published_in}
use any_node.Publisher.Order.{held}

module _ {ℓ} {M : Type ℓ} where
  -- `n` turns of the thread, one after the other.
  unfoldable pub thread_turns : ℕ → Publisher M → Publisher M × List (Event M)
  thread_turns zero s = (s, [])
  thread_turns (suc n) s = let (q, es) = turn s in let (r, fs) = thread_turns n q in (r, es ++ fs)

  -- A thread, and not a call of `sendRos`.
  abbrev pub is_alive : Spot M → Bool
  is_alive outside = false
  is_alive _ = true

  -- The message that the thread goes on to take, past its test of `shutdownRequested_`.
  abbrev pub under_way : Spot M → List M → List M
  under_way popping (m ∷ b) = m ∷ []
  under_way _ b = []

  -- The publisher when its thread is told to end, with the thread at `p`.
  told : Spot M → Publisher M → Publisher M
  told p s = record s {
    spot = p;
    auto_publish = true;
    notified = true;
    shutdown_requested = true;
    joining = true;
  }

  abbrev Ended : Spot M → Publisher M → Publisher M × List (Event M) → Type ℓ
  Ended p s r =
      (r.0.spot ≡ ended)
      × (s.buffer ≡ under_way p s.buffer ++ r.0.buffer)
      × (published_in r.1 ≡ held p ++ under_way p s.buffer)
      × ((joined r.0).1 ≡ closed ∷ [])

  told-Ended :
      (p : Spot M) (b : List M) (s : Publisher M)
      → is_alive p ≡ true
      → Ended p (record s { buffer = b }) (thread_turns 4 (told p (record s { buffer = b })))
  unfolding told thread_turns turn turn_at joined published_in held
  told-Ended outside b s l = cc
  told-Ended looping b s l = (refl, refl, refl, refl)
  told-Ended waiting b s l = (refl, refl, refl, refl)
  told-Ended sending b s l = (refl, refl, refl, refl)
  told-Ended popping [] s l = (refl, refl, refl, refl)
  told-Ended popping (m ∷ b) s l = (refl, refl, refl, refl)
  told-Ended (holding m) b s l = (refl, refl, refl, refl)
  told-Ended ended b s l = (refl, refl, refl, refl)

  abbrev Shuts : Publisher M → Type ℓ
  Shuts s = Ended s.spot s (thread_turns 4 (notify_thread (shutdown s).0))

  shutdown-Shuts :
      (p : Spot M) (s : Publisher M)
      → is_alive p ≡ true
      → Shuts (record s { spot = p; auto_publish = true; shutdown_requested = false })
  unfolding told shutdown notify_thread
  shutdown-Shuts p s l =
      let more : ltb 0 (s.pending + 1) ≡ true = ground arith in
      rw more (told-Ended p s.buffer (record s { pending = s.pending + 1 - 1 }) l)

  -- shutdown() of a publisher with a thread, wherever the thread stands: after the notification
  -- four turns take the thread to its end, and the call then closes the ROS publisher. The thread
  -- still publishes the message that it holds, or the first in the buffer if it is past its test of
  -- the request, and no other; the rest of the buffer stays there.
  pub shutdown_lem :
      (s : Publisher M)
      → s.auto_publish ≡ true
      → s.shutdown_requested ≡ false
      → is_alive s.spot ≡ true
      → let r = thread_turns 4 (notify_thread (shutdown s).0) in
        (r.0.spot ≡ ended)
        × (s.buffer ≡ under_way s.spot s.buffer ++ r.0.buffer)
        × (published_in r.1 ≡ held s.spot ++ under_way s.spot s.buffer)
        × ((joined r.0).1 ≡ closed ∷ [])
  shutdown_lem s a b l =
      subst Shuts (λ i. record s { auto_publish = sym a i; shutdown_requested = sym b i })
        (shutdown-Shuts s.spot s l)

  -- A call of `sendRos` at the head of its loop.
  draining : List M → Publisher M → Publisher M
  draining b s = record s {
    buffer = b;
    spot = sending;
    auto_publish = false;
    shutdown_requested = false;
  }

  abbrev turns_for : List M → ℕ
  turns_for [] = 2
  turns_for (m ∷ b) = suc (suc (suc (turns_for b)))

  turns_for_lem : (b : List M) → turns_for b ≡ 3 * length b + 2
  turns_for_lem [] = omega arith
  turns_for_lem (m ∷ b) = omega (arith, turns_for_lem b)

  drained :
      (b : List M) (s : Publisher M)
      → let r = thread_turns (turns_for b) (draining b s) in
        (r.0 ≡ record s {
          buffer = [];
          spot = outside;
          auto_publish = false;
          shutdown_requested = false;
        })
        × (published_in r.1 ≡ b)
  unfolding draining thread_turns turn turn_at published_in
  drained [] s = (refl, refl)
  drained (m ∷ b) s = let (e, f) = drained b s in (e, ap (◌∷◌ m) f)

  abbrev Drains : Publisher M → Type ℓ
  Drains s =
      let r = thread_turns (turns_for s.buffer) (send_ros s) in
      (r.0 ≡ record s { buffer = [] }) × (published_in r.1 ≡ s.buffer)

  send_ros-Drains :
      (s : Publisher M)
      → Drains (record s { spot = outside; auto_publish = false; shutdown_requested = false })
  unfolding draining send_ros
  send_ros-Drains s = drained s.buffer s

  -- `sendRos` of a publisher without a thread, while nobody adds a message: it publishes all that
  -- is in the buffer, in order, and returns with the buffer empty and all else as it was.
  send_ros_lem :
      (s : Publisher M)
      → s.auto_publish ≡ false
      → s.shutdown_requested ≡ false
      → s.spot ≡ outside
      → let r = thread_turns (3 * length s.buffer + 2) (send_ros s) in
        (r.0 ≡ record s { buffer = [] }) × (published_in r.1 ≡ s.buffer)
  send_ros_lem s a b o =
      subst
        (λ n.
          let r = thread_turns n (send_ros s) in
          (r.0 ≡ record s { buffer = [] }) × (published_in r.1 ≡ s.buffer))
        (turns_for_lem s.buffer)
        (subst Drains
          (λ i. record s { spot = sym o i; auto_publish = sym a i; shutdown_requested = sym b i })
          (send_ros-Drains s))

  -- A second call of `shutdown` closes the ROS publisher again if there is no thread; with a thread
  -- it closes nothing.
  pub shutdown-shutdown :
      (s : Publisher M)
      → s.shutdown_requested ≡ false
      → (shutdown (shutdown s).0).1 ≡ (if s.auto_publish then [] else closed ∷ [])
  unfolding shutdown
  shutdown-shutdown s b = ground arith
