-- ===== src/Subscriber/Examples.antt =====
-- The theorems on subscribers with nanoseconds for both of ROS's types.
use any_node.Base.{ℕ, ◌*◌, ◌≡◌, refl, arith, Bool, true, not, List, [], ◌∷◌, length}
use any_node.Base.Int.{ℤ, pos, ◌+ℤ◌, ◌-ℤ◌, ◌≤ℤ◌, ltb_ℤ, int_laws}
use any_node.Subscriber.Defs.{RosTime, construct, receive}
use any_node.Subscriber.Defs.{internal_callback}
use any_node.Subscriber.Closing.{
  Op, arrives, shuts_down, subscribing, empty, destruct, run, closed_lem,
}
use any_node.Subscriber.Throttle.{IsExact, receive_lem}

abbrev at_least : ℤ → ℤ → Bool
at_least a b = not (ltb_ℤ a b)

instance abbrev nanoseconds : RosTime ℤ ℤ
nanoseconds = record { time_min = pos 0; sub = λ a b. a -ℤ b; ge = at_least }

not_less : (a b : ℤ) → at_least a b ≡ true → b ≤ℤ a
not_less a b h = ground arith

apart : (a b x : ℤ) → at_least (a -ℤ b) x ≡ true → b +ℤ x ≤ℤ a
apart a b x h = omega (int_laws, not_less (a -ℤ b) x h)

exact : IsExact nanoseconds (λ a. a) (λ a. a)
exact = record { apart = apart }

abbrev slow : List (ℤ × ℕ)
slow = (pos 105, 1) ∷ (pos 205, 2) ∷ []

abbrev messages : List (ℤ × ℕ)
messages = (pos 105, 1) ∷ (pos 110, 2) ∷ (pos 204, 3) ∷ (pos 205, 4) ∷ []

receive_lem_example :
    let (q, called) = receive (construct (pos 100)) messages in
    pos 0 +ℤ pos (length called * 100) ≤ℤ q.last_time
unfolding construct
receive_lem_example = receive_lem (λ a. a) (λ a. a) (construct (pos 100)) messages 100 exact refl

-- The second message is too soon; the last one arrives after the end.
abbrev closing : List (Op ℤ ℕ)
closing =
    arrives (pos 105) 1
    ∷ arrives (pos 110) 2
    ∷ arrives (pos 205) 3
    ∷ shuts_down
    ∷ arrives (pos 400) 4
    ∷ []

closed_lem_example :
    ((run (subscribing (pos 100)) closing).1 ≡ 1 ∷ 3 ∷ [])
    × ((run (empty (pos 0) (pos 0)) closing).1 ≡ [])
    × ((run (destruct (subscribing (pos 100))) closing).1 ≡ [])
unfolding receive internal_callback construct ◌-ℤ◌
closed_lem_example = closed_lem (pos 100) (pos 0) (pos 0) (subscribing (pos 100)) closing
