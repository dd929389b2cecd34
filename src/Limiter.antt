-- ===== src/Limiter.antt =====
-- limiter/
pub mod Conn
pub mod Alive
pub mod OldOnline
pub mod Speed
pub mod State
pub mod Check
pub mod Users
pub mod Registry
