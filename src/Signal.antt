-- ===== src/Signal.antt =====
-- signal_handler/include/signal_handler/SignalHandler.hpp and signal_handler/src/SignalHandler.cpp.
mod Defs
pub mod Refinement
pub mod Ledger
pub mod Faults
pub mod Mutex
unfoldable pub use Defs.*
pub mod All
mod Examples
