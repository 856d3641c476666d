-- ===== src/Search.antt =====
-- backend/app/face.py: the results of a face search, and the matches that are stored for a photo.
pub mod Best
pub mod Heap
pub mod Top
pub mod Merge
pub mod Order
pub mod Seeds
pub mod Clusters
pub mod Consensus
pub mod Support
pub mod Ocr
mod Tests
