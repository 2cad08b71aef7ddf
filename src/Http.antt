-- ===== src/Http.antt =====
-- kit_server/http/http.h and http.cpp: methods, status codes, headers and messages.
pub mod Method
pub mod Headers
pub mod Lines
pub mod Request
pub mod Response
mod Tests
