-- ===== src/Feed/Deployment.antt =====
-- src/follow_the_money/feed/deployment.py: the state of a hosted run, from its preparation to its
-- end. Git, the diagnostics and the command line of that file are not here.
pub mod Layout
pub mod Prepare
pub mod Finalize
pub mod Change
pub mod Prepared
pub mod Ended
pub mod Runs
pub mod Sound
pub mod Starts
pub mod Exclusive
mod Tests
