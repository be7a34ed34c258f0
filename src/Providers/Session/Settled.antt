-- ===== src/Providers/Session/Settled.antt =====
-- What one send does to the gates and to the rate state, on every path through it.
pub mod Counts
mod Phases
mod Body
pub mod Theorems
