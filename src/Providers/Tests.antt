-- ===== src/Providers/Tests.antt =====
-- Tests of the rate state and of a send, and the theorems at concrete inputs.
pub mod Numbers
mod Scopes
mod Sends
mod Redirects
