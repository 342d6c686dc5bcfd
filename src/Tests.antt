-- ===== src/Tests.antt =====
-- Runs of the theorems on concrete inputs.
pub mod Samples
pub mod Messages
pub mod Queries
pub mod Polled
pub mod Responses
pub mod Servers
pub mod Confs
pub mod Exchanges
pub mod Modules
pub mod Sockets
pub mod Controls
pub mod Controllers
pub mod Announcers
pub mod Signals
pub mod Folders
pub mod Applications
pub mod Mixed
