-- ===== src/Providers/Rate.antt =====
-- src/follow_the_money/providers/rate.py: the durable token state of a scope and its transitions.
-- `State` has the data, `Registry` the files of the root and the life of a scope.
pub mod State
pub mod Registry
pub mod Eligible
pub mod Crash
