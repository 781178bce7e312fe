-- ===== src/Http.antt =====
-- server/http/http.h and http.cc: HTTP messages.
pub mod Method
pub mod MapType
pub mod Request
pub mod Response
pub mod Dump
pub mod Parser
pub mod Session
pub mod Server
pub mod Examples
