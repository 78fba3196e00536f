-- ===== src/Nodewrap/Life.antt =====
-- What an object of the class does from its constructor, through `execute`, to its destructor.
use any_node.Base.{
  ℕ, ◌==◌, ◌≡◌, ap, Bool, not, ◌||◌, if◌then◌else◌, Option, List, [], ◌∷◌, ◌++◌, map,
}
use any_node.Base.Int.{ℤ}
use any_node.Signal.{Signals, Handler}
use any_node.Topic.{uint32}
use any_node.Nodewrap.Defs.{Phase, finished, Effect, spinners, construct, Op, execute}
use any_node.Nodewrap.Lifecycle.{effects_before, execute_order}

-- `period::num` and `period::den` of a clock.
pub record Period : Type 0 where
  pub num : ℕ
  pub den : ℕ

pub data Clock : Type 0 where
  steady_clock system_clock : Clock

pub data Event : Type 0 where
  ros_init : Bool → Event  -- whether ROS handles SIGINT
  ros_start ros_shutdown make_node_handle make_node : Event
  make_spinner : ℕ → Event
  clock_error : Clock → Event
  runs : Effect → Event

abbrev is_nanoseconds : Period → Bool
is_nanoseconds p = not (not (p.num == 1) || not (p.den == 1_000_000_000))

unfoldable pub check_steady_clock : Period → Period → List Event
check_steady_clock steady system =
    (if is_nanoseconds steady then [] else clock_error steady_clock ∷ [])
    ++ (if is_nanoseconds system then [] else clock_error system_clock ∷ [])

-- The constructor: the answer is the server's for the number of spinners.
unfoldable pub constructor : Option ℤ → ℤ → Bool → Period → Period → List Event
constructor answer num_spinners installed steady system =
    ros_init (not installed)
    ∷ ros_start
    ∷ make_node_handle
    ∷ make_spinner (uint32 (spinners answer num_spinners))
    ∷ make_node
    ∷ check_steady_clock steady system

-- The object is destroyed when `execute` has returned.
abbrev pub destructor : Phase → List Event
destructor (finished result) = ros_shutdown ∷ []
destructor _ = []

unfoldable pub life :
    Option ℤ → ℤ → Period → Period → Handler → Bool → Signals → List Op → List Event
life answer num_spinners steady system h installed s os =
    let r = execute (construct h installed s) os in
    constructor answer num_spinners installed steady system ++ map runs r.1 ++ destructor r.0.phase

-- Whatever comes between the turns of `execute`, all that has been called is what the phase says: at
-- the end, ROS is shut down after the node has been cleaned up.
life_lem :
    (answer : Option ℤ) (num_spinners : ℤ) (steady system : Period) (h : Handler)
    → (installed : Bool) (s : Signals) (os : List Op)
    → let p = (execute (construct h installed s) os).0.phase in
      life answer num_spinners steady system h installed s os
      ≡ constructor answer num_spinners installed steady system
        ++ map runs (effects_before p)
        ++ destructor p
unfolding life
life_lem answer num_spinners steady system h installed s os =
    ap
      (λ es.
        constructor answer num_spinners installed steady system
        ++ map runs es
        ++ destructor (execute (construct h installed s) os).0.phase)
      (execute_order h installed s os)
