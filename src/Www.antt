-- ===== src/Www.antt =====
-- The HTTP classes: headers, requests, responses, sessions and the server.
pub mod Header
pub mod Request
pub mod Socket
pub mod Response
pub mod Session
pub mod Server
