-- ===== src/Daemon.antt =====
-- The daemon's main program: host-daemon/src/main.c.
pub mod Dispatch
pub mod Loop
pub mod Quiet
pub mod Poll
pub mod Drain
pub mod Answer
pub mod Commit
pub mod Forget
pub mod Start
pub mod Ready
pub mod Main
pub mod Idle
