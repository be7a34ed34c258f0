-- ===== src/Providers/Session.antt =====
-- src/follow_the_money/providers/session.py: the managed client. `Send` is one wire send, `Settled`
-- its laws, and `Redirect` the chain of sends of one `get`.
pub mod Send
pub mod Settled
pub mod Redirect
