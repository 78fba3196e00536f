-- ===== src/Subscriber.antt =====
-- any_node/include/any_node/ThrottledSubscriber.hpp: the class in `Defs`, how often it calls, and the
-- end of its subscription.
mod Defs
unfoldable pub use Defs.*
pub mod Throttle
pub mod Closing
mod Examples
