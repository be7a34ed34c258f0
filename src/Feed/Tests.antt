-- ===== src/Feed/Tests.antt =====
-- Tests of the Feed, and its theorems at concrete inputs.
mod Windows
mod Slices
mod Items
pub mod Files
