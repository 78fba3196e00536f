-- ===== src/Example.antt =====
-- any_node_example: the node that shows how the library is used, and its program.
mod Defs
pub mod Init
pub mod Program
mod Examples
