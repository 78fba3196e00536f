-- ===== src/Node.antt =====
-- any_node/include/any_node/Node.hpp and any_node/src/Node.cpp: the methods of the class that are
-- about workers, in `Defs`; a node that runs in `Nodewrap`, with its workers, in `System`; and how
-- such a node ends.
mod Defs
mod System
unfoldable pub use Defs.*
unfoldable pub use System.*
pub mod Reach
pub mod Ending
mod Examples
