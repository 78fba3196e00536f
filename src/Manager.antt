-- ===== src/Manager.antt =====
-- any_worker/include/any_worker/WorkerManager.hpp and any_worker/src/WorkerManager.cpp: the class in
-- `Defs`, and what each of its methods does to each worker.
mod Defs
mod Overloads
unfoldable pub use Defs.*
unfoldable pub use Overloads.*
pub mod Cancel
pub mod Lookup
pub mod Calls
pub mod Mutex
pub mod Order
mod Examples
