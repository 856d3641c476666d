-- ===== src/Worker.antt =====
-- backend/app/worker_api.py: the control plane that hands jobs to workers.
pub mod Job
pub mod Session
pub mod Attempt
pub mod Parents
pub mod Claim
pub mod Report
pub mod Complete
pub mod CompletePhoto
pub mod CompleteFaces
pub mod CompleteRequest
pub mod Ownership
pub mod Rows
pub mod Invariant
pub mod Requests
pub mod FailShape
pub mod Takes
pub mod Leases
pub mod Reading
pub mod Queue
pub mod StaleParents
pub mod Repeats
pub mod Leaves
pub mod Completes
pub mod Completion
pub mod Settled
pub mod PhotoOutcome
pub mod Retries
pub mod Samples
mod Tests
mod CompletionTests
pub mod HeartbeatShape
