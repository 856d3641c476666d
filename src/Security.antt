-- ===== src/Security.antt =====
-- backend/app/web_security.py: the browser's side of the backend, but for the limiters (Limits.antt).
pub mod Settings
pub mod Configuration
pub mod Cleared
pub mod Safe
pub mod Base64
pub mod Capability
pub mod Request
pub mod Admission
pub mod InService
pub mod Response
mod UnaryCodec
mod Tests
