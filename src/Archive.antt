-- ===== src/Archive.antt =====
-- backend/app/photo_archive.py: the names in a download, and the ZIP archive as a stream.
pub mod Decimal
pub mod Pigeonhole
pub mod Names
pub mod Unique
pub mod Bytes
pub mod Stream
pub mod Zip
pub mod Extract
pub mod Parts
pub mod Directory
mod Tests
