-- ===== src/Topic.antt =====
-- any_node/include/any_node/Topic.hpp and the methods of any_node/include/any_node/Node.hpp that
-- forward to it: what is asked of ROS, by the parameters of a name. `Ros2` has the build for ROS 2,
-- all else is about that for ROS 1.
mod Defs
unfoldable pub use Defs.*
pub mod Forward
pub mod Names
pub mod Ros2
mod Examples
