-- ===== src/Api.antt =====
-- internal/api: the parts of the handlers that compute.
mod Tests
pub mod Code
pub mod Response
pub mod Pagination
pub mod Auth
pub mod Session
pub mod Message
pub mod Knowledge
pub mod AsyncChat
pub mod Health
pub mod Sse
pub mod Chat
pub mod Coze
