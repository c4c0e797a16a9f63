-- ===== src/Genpolicy/Normalize.antt =====
-- The correction of a generated policy before it is signed (genpolicy.rs): of its rules, as text, and
-- of the mounts in its data.
pub mod Text
pub mod Insert
pub mod Stable
pub mod Mounts
pub mod Update
pub mod Table
pub mod Placed
pub mod Correct
