-- ===== src/Double.antt =====
-- The C++ type `double`, which no source of the repository defines: the operations that
-- any_worker/src/Rate.cpp, any_worker/src/Worker.cpp and the option structs apply to it, and
-- values on which the model runs.
mod Defs
pub mod Rational
pub use Defs.*
