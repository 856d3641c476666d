-- ===== src/Uploads.antt =====
-- backend/app/uploads.py: what an upload must be.
pub mod Read
pub mod Image
pub mod Accepted
mod Tests
