-- ===== src/Node.antt =====
pub mod Ports
pub mod Traffic
pub mod Controller
pub mod Report
pub mod Users
pub mod Dynamic
pub mod Reload
pub mod Lifecycle
pub mod Monitor
pub mod Certs
pub mod Intervals
pub mod Servers
pub mod Startup
