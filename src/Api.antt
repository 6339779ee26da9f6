-- ===== src/Api.antt =====
-- internal/handler/api: one module for each file of handlers.
pub mod Response
pub mod Auth
pub mod Admin
pub mod Requests
pub mod Calls
pub mod Router
