-- ===== src/Thread.antt =====
-- src/thread.h and src/thread.cpp: locks (Locks), the spinning threads of a CASLock (Spin), and the
-- threads themselves (Start, Join).
pub mod Locks
pub mod Scope
pub mod Spin
mod Runs
pub mod Start
pub mod Join
pub mod Handshake
