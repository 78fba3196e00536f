-- ===== src/Signal/Mutex.antt =====
-- The mutex of `SignalHandler`, with calls by any threads and with signals, which run `signaled` on
-- top of whatever the thread is doing that they interrupt. (In `Defs` a call is one step; here each
-- write to the handlers, and each call of `signal`, is one.)
pub mod Serial
pub mod Deadlock
use any_node.Base.{
  ℕ, zero, suc, ◌+◌, ◌==◌, ◌≡◌, ◌≢◌, refl, sym, ap, subst, arith, Bool, true, false, Bool-cases,
  ◌⊎◌, inl, inr, if◌then◌else◌, Option, none, some, List, [], ◌∷◌, ◌++◌,
}
use any_node.Base.Dict.{find, put, erase, nat_eq}
use any_node.Signal.Defs.{
  Signals, Handler, Disposition, signaled_function, default_action, signal, has_type, remove_type,
  or_empty, bind, unbind, unbind_signal, enter, leave, unbind_in, clear_in,
}

-- A call of a method that locks the mutex.
pub data Call : Type 0 where
  binds unbinds : ℕ → Handler → Call
  clears delivers : ℕ → Call

-- `signaled` changes nothing.
unfoldable pub perform : Call → Signals → Signals
perform (binds sig h) s = bind s sig h
perform (unbinds sig h) s = unbind s sig h
perform (clears sig) s = unbind_signal s sig
perform (delivers sig) s = s

-- What a call does while it has the mutex.
pub data Write : Type 0 where
  sets_list : ℕ → List Handler → Write
  erases : ℕ → Write
  disposes : ℕ → Disposition → Write

abbrev pub apply : Write → Signals → Signals
apply (sets_list sig hs) s = record s { handlers = put sig hs s.handlers }
apply (erases sig) s = record s { handlers = erase sig s.handlers }
apply (disposes sig d) s = record s { disposition = signal sig d s.disposition }

unfoldable pub apply_all : List Write → Signals → Signals
apply_all [] s = s
apply_all (w ∷ ws) s = apply_all ws (apply w s)

abbrev pub bind_writes : ℕ → Handler → Option (List Handler) → List Write
bind_writes sig h none =
    sets_list sig [] ∷ disposes sig signaled_function ∷ sets_list sig (h ∷ []) ∷ []
bind_writes sig h (some hs) = if has_type h hs then [] else sets_list sig (hs ++ h ∷ []) ∷ []

abbrev pub leave_writes : ℕ → List Handler → List Write
leave_writes sig [] = sets_list sig [] ∷ erases sig ∷ disposes sig default_action ∷ []
leave_writes sig (h ∷ hs) = sets_list sig (h ∷ hs) ∷ []

abbrev pub unbind_writes : ℕ → Handler → Option (List Handler) → List Write
unbind_writes sig h none = []
unbind_writes sig h (some hs) = if has_type h hs then leave_writes sig (remove_type h hs) else []

abbrev pub clear_writes : ℕ → Option (List Handler) → List Write
clear_writes sig none = []
clear_writes sig (some hs) = sets_list sig [] ∷ disposes sig default_action ∷ []

-- In the order of the source, from the handlers that the call finds.
unfoldable pub writes_of : Call → Signals → List Write
writes_of (binds sig h) s = bind_writes sig h (find sig s.handlers)
writes_of (unbinds sig h) s = unbind_writes sig h (find sig s.handlers)
writes_of (clears sig) s = clear_writes sig (find sig s.handlers)
writes_of (delivers sig) s = []

-- A call that waits for the mutex, or one that has it, with what it is still to write.
pub data Frame : Type 0 where
  waiting : Call → Frame
  inside : Call → List Write → Frame

pub record System : Type 0 where
  pub signals : Signals
  pub holder : Option ℕ  -- the thread that has the mutex
  pub stacks : ℕ → List Frame  -- the calls of each thread, the innermost first
  pub log : List Call  -- the calls that have returned, the last first

abbrev pub start : Signals → System
start signals = record { signals = signals; holder = none; stacks = λ _. []; log = [] }

abbrev pub update : (ℕ → List Frame) → ℕ → List Frame → ℕ → List Frame
update f i fs j = if i == j then fs else f j

-- The thread runs code of its own: it is in no call, or in a handler that `signaled` has called.
abbrev pub is_free : List Frame → Bool
is_free [] = true
is_free (inside (delivers sig) ws ∷ fs) = true
is_free _ = false

abbrev pub interrupted : System → ℕ → ℕ → System
interrupted s i sig = record s { stacks = update s.stacks i (waiting (delivers sig) ∷ s.stacks i) }

pub data Step (s : System) (q : System) : Type 0 where
  calls :
      (i : ℕ) (c : Call)
      → is_free (s.stacks i) ≡ true
      → q ≡ record s { stacks = update s.stacks i (waiting c ∷ s.stacks i) }
      → Step s q
  interrupts :
      (i sig : ℕ)
      → s.signals.disposition sig ≡ signaled_function
      → q ≡ interrupted s i sig
      → Step s q
  locks :
      (i : ℕ) (c : Call) (fs : List Frame)
      → s.holder ≡ none
      → s.stacks i ≡ waiting c ∷ fs
      → q ≡ record s {
        holder = some i;
        stacks = update s.stacks i (inside c (writes_of c s.signals) ∷ fs);
      }
      → Step s q
  writes :
      (i : ℕ) (c : Call) (w : Write) (ws : List Write) (fs : List Frame)
      → s.stacks i ≡ inside c (w ∷ ws) ∷ fs
      → q ≡ record s { signals = apply w s.signals; stacks = update s.stacks i (inside c ws ∷ fs) }
      → Step s q
  returns :
      (i : ℕ) (c : Call) (fs : List Frame)
      → s.stacks i ≡ inside c [] ∷ fs
      → q ≡ record s { holder = none; stacks = update s.stacks i fs; log = c ∷ s.log }
      → Step s q

pub data Reach (s : System) : System → Type 0 where
  here : Reach s s
  next : {q r : System} → Reach s q → Step q r → Reach s r

-- The call of a thread that has the mutex, with what it is still to write.
abbrev pub current : List Frame → Option (Call × List Write)
current [] = none
current (waiting c ∷ fs) = current fs
current (inside c ws ∷ fs) = some (c, ws)

-- How many calls of a thread have the mutex.
abbrev pub insides : List Frame → ℕ
insides [] = 0
insides (waiting c ∷ fs) = insides fs
insides (inside c ws ∷ fs) = suc (insides fs)

abbrev pub holds : Option ℕ → ℕ → ℕ
holds none i = 0
holds (some j) i = if j == i then 1 else 0

unfoldable pub replay : List Call → Signals → Signals
replay [] s = s
replay (c ∷ cs) s = perform c (replay cs s)
