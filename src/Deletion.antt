-- ===== src/Deletion.antt =====
-- backend/app/maintenance.py: the deletion of stored objects.
pub mod Task
pub mod Outbox
pub mod Run
pub mod Shape
pub mod Sound
pub mod Enqueue
pub mod Purge
mod Tests
