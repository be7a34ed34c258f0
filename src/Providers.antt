-- ===== src/Providers.antt =====
-- src/follow_the_money/providers: the rate registry and the managed client.
pub mod Rate
pub mod Session
pub mod Tests
