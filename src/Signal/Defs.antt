-- ===== src/Signal/Defs.antt =====
-- The static class `SignalHandler`, and the process's signal dispositions that it sets. A call
-- is one step here; `Mutex` has the mutex.
use any_node.Base.{
  ℕ, ◌==◌, Bool, false, ◌||◌, if◌then◌else◌, Option, none, some, List, [], ◌∷◌, ◌++◌,
}
use any_node.Base.Dict.{find, put, erase, nat_eq}

-- A `std::function`: the pointer that `target_type().name()` gives for its type, and which function
-- and object it holds. The class compares the former only.
pub record Handler : Type 0 where
  pub type_name : ℕ
  pub target : ℕ

-- `SIG_DFL`, or `&SignalHandler::signaled`.
pub data Disposition : Type 0 where
  default_action signaled_function : Disposition

pub record Signals : Type 0 where
  pub handlers : List (ℕ × List Handler)
  pub disposition : ℕ → Disposition

abbrev pub initial : Signals
initial = record { handlers = []; disposition = λ _. default_action }

-- The system call `signal`, which the class uses for signals that can be caught.
abbrev pub signal : ℕ → Disposition → (ℕ → Disposition) → ℕ → Disposition
signal s x f t = if s == t then x else f t

abbrev pub same_type : Handler → Handler → Bool
same_type g h = g.type_name == h.type_name

unfoldable pub has_type : Handler → List Handler → Bool
has_type h [] = false
has_type h (g ∷ gs) = same_type g h || has_type h gs

-- The first handler of the type goes.
unfoldable pub remove_type : Handler → List Handler → List Handler
remove_type h [] = []
remove_type h (g ∷ gs) = if same_type g h then gs else g ∷ remove_type h gs

-- bind(): an entry for the signal, and with a new entry the disposition.
abbrev pub enter : Signals → ℕ → Option (List Handler) → Signals × List Handler
enter s sig none = (
  record {
    handlers = put sig [] s.handlers;
    disposition = signal sig signaled_function s.disposition;
  },
  [],
)
enter s sig (some hs) = (s, hs)

unfoldable pub bind : Signals → ℕ → Handler → Signals
bind s sig h =
    let (entered, hs) = enter s sig (find sig s.handlers) in
    if has_type h hs
    then entered
    else record entered { handlers = put sig (hs ++ h ∷ []) entered.handlers }

abbrev pub leave : Signals → ℕ → List Handler → Signals
leave s sig [] = record {
  handlers = erase sig s.handlers;
  disposition = signal sig default_action s.disposition;
}
leave s sig (h ∷ hs) = record s { handlers = put sig (h ∷ hs) s.handlers }

abbrev pub unbind_in : Signals → ℕ → Handler → Option (List Handler) → Signals
unbind_in s sig h none = s
unbind_in s sig h (some hs) = if has_type h hs then leave s sig (remove_type h hs) else s

unfoldable pub unbind : Signals → ℕ → Handler → Signals
unbind s sig h = unbind_in s sig h (find sig s.handlers)

abbrev pub clear_in : Signals → ℕ → Option (List Handler) → Signals
clear_in s sig none = s
clear_in s sig (some hs) = record {
  handlers = put sig [] s.handlers;
  disposition = signal sig default_action s.disposition;
}

-- unbind(int): all handlers of the signal.
unfoldable pub unbind_signal : Signals → ℕ → Signals
unbind_signal s sig = clear_in s sig (find sig s.handlers)

abbrev pub or_empty : Option (List Handler) → List Handler
or_empty none = []
or_empty (some hs) = hs

-- signaled(): the handlers that are called, in their order.
unfoldable pub signaled : Signals → ℕ → List Handler
signaled s sig = or_empty (find sig s.handlers)

-- What a signal does to the process: the system's action, or calls of handlers.
pub data Delivery : Type 0 where
  system_action : Delivery
  calls : List Handler → Delivery

abbrev pub deliver_by : Disposition → List Handler → Delivery
deliver_by default_action hs = system_action
deliver_by signaled_function hs = calls hs

unfoldable pub deliver : Signals → ℕ → Delivery
unfolding signaled
deliver s sig = deliver_by (s.disposition sig) (signaled s sig)

-- The signals of `bindAll` and `unbindAll`, by their numbers on Linux: SIGINT, SIGTERM, SIGABRT,
-- SIGFPE, SIGILL, SIGQUIT, SIGHUP.
abbrev pub all_signals : List ℕ
all_signals = 2 ∷ 15 ∷ 6 ∷ 8 ∷ 4 ∷ 3 ∷ 1 ∷ []

unfoldable pub bind_each : Signals → List ℕ → Handler → Signals
bind_each s [] h = s
bind_each s (n ∷ ns) h = bind_each (bind s n h) ns h

unfoldable pub unbind_each : Signals → List ℕ → Handler → Signals
unbind_each s [] h = s
unbind_each s (n ∷ ns) h = unbind_each (unbind s n h) ns h

unfoldable pub bind_all : Signals → Handler → Signals
unfolding bind_each
bind_all s h = bind_each s all_signals h

unfoldable pub unbind_all : Signals → Handler → Signals
unfolding unbind_each
unbind_all s h = unbind_each s all_signals h
