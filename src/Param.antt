-- ===== src/Param.antt =====
-- param_io/include/param_io/get_param.hpp: the overloads of `getParam`, and what they promise.
mod Defs
unfoldable pub use Defs.*
pub mod Eigen
pub mod Member
pub mod Results
pub mod Store
pub mod Reference
mod Parts
pub mod Flat
mod Examples
