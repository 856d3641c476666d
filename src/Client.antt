-- ===== src/Client.antt =====
-- raceframe-worker/worker.py: the worker that claims jobs of the backend and reports on them.
pub mod Failure
pub mod Post
pub mod Download
pub mod Handle
pub mod Poller
pub mod Delivery
pub mod Fairness
pub mod Fetched
pub mod Reports
mod Tests
