-- ===== src/Nodewrap/Defs.antt =====
-- The class `Nodewrap`: `execute` as a machine that takes one turn at a time, with signals between.
-- ROS and the node's own functions are outside: a call of one is an effect.
use any_node.Base.{ℕ, ◌==◌, Bool, true, false, if◌then◌else◌, not, List, [], ◌∷◌, ◌++◌, Option}
use any_node.Base.Int.{ℤ, negsuc, eqb_ℤ}
use any_node.Param.{int32, get_uint32}
use any_node.Signal.{
  Signals, Handler, bind_all, unbind_all, deliver, Delivery, system_action, calls, has_type,
}

-- Where the thread that calls `execute` stands.
pub data Phase : Type 0 where
  created : Phase
  initializing : Phase  -- in `impl_->init()`
  waiting : Phase  -- in `run`
  cleaning : Bool → Phase  -- before `cleanup`, with the result of `init`
  stopping : Bool → Phase  -- in `cleanup`, before the node's workers are stopped
  finished : Bool → Phase

pub data Effect : Type 0 where
  start_spinner init_node pre_cleanup stop_all_workers stop_spinner cleanup_node : Effect

pub record Nodewrap : Type 0 where
  pub handler : Handler
  pub signal_handler_installed : Bool
  pub running : Bool
  pub signals : Signals
  pub phase : Phase
  pub killed : Bool  -- the system's action for a signal has ended the process

-- The number of spinners: -1 is for the server's, or 2.
unfoldable pub spinners : Option ℤ → ℤ → ℤ
spinners answer num_spinners =
    if eqb_ℤ num_spinners (negsuc 0) then int32 (get_uint32 answer 2).0 else num_spinners

unfoldable pub construct : Handler → Bool → Signals → Nodewrap
construct handler installed signals = record {
  handler = handler;
  signal_handler_installed = installed;
  running = false;
  signals = signals;
  phase = created;
  killed = false;
}

-- init(), up to the call of the node's.
unfoldable pub begin_init : Nodewrap → Nodewrap × List Effect
begin_init n = (
  record n {
    signals = if n.signal_handler_installed then bind_all n.signals n.handler else n.signals;
    phase = initializing;
  },
  start_spinner ∷ init_node ∷ [],
)

-- init(), with the result of the node's, and the branch in `execute`.
unfoldable pub end_init : Nodewrap → Bool → Nodewrap
end_init n ok =
    if ok then record n { running = true; phase = waiting } else record n { phase = cleaning false }

-- cleanup(), up to the call of the node's `preCleanup`.
unfoldable pub begin_cleanup : Nodewrap → Bool → Nodewrap × List Effect
begin_cleanup n ok = (
  record n {
    signals = if n.signal_handler_installed then unbind_all n.signals n.handler else n.signals;
    phase = stopping ok;
  },
  pre_cleanup ∷ [],
)

-- cleanup(), from there on.
unfoldable pub end_cleanup : Nodewrap → Bool → Nodewrap × List Effect
end_cleanup n ok =
    (record n { phase = finished ok }, stop_all_workers ∷ stop_spinner ∷ cleanup_node ∷ [])

-- One turn of `execute`. The predicate of the wait in `run` is tested under the lock that `stop`
-- takes, so that each test is a turn. The Boolean is the result of the node's `init`.
unfoldable pub turn_at : Phase → Nodewrap → Bool → Nodewrap × List Effect
turn_at created n ok = begin_init n
turn_at initializing n ok = (end_init n ok, [])
turn_at waiting n ok = (if not n.running then record n { phase = cleaning true } else n, [])
turn_at (cleaning result) n ok = begin_cleanup n result
turn_at (stopping result) n ok = end_cleanup n result
turn_at (finished result) n ok = (n, [])

unfoldable pub stop : Nodewrap → Nodewrap
stop n = record n { running = false }

abbrev pub sigsegv : ℕ
sigsegv = 11

unfoldable pub signal_handler : Nodewrap → ℕ → Nodewrap
signal_handler n signum =
    let stopped = stop n in if signum == sigsegv then record stopped { killed = true } else stopped

-- A signal, where the class has bound its handler. (Otherwise ROS handles it.)
abbrev pub on_delivery : Delivery → Nodewrap → ℕ → Nodewrap
on_delivery system_action n signum = record n { killed = true }
on_delivery (calls hs) n signum = if has_type n.handler hs then signal_handler n signum else n

unfoldable pub on_signal : Nodewrap → ℕ → Nodewrap
on_signal n signum =
    if n.signal_handler_installed then on_delivery (deliver n.signals signum) n signum else n

pub data Op : Type 0 where
  turns : Bool → Op
  stops : Op
  gets : ℕ → Op

abbrev pub live_step : Nodewrap → Op → Nodewrap × List Effect
live_step n (turns ok) = turn_at n.phase n ok
live_step n stops = (stop n, [])
live_step n (gets signum) = (on_signal n signum, [])

unfoldable pub step : Nodewrap → Op → Nodewrap × List Effect
step n o = if n.killed then (n, []) else live_step n o

unfoldable pub execute : Nodewrap → List Op → Nodewrap × List Effect
execute n [] = (n, [])
execute n (o ∷ os) = let (m, es) = step n o in let (q, fs) = execute m os in (q, es ++ fs)
