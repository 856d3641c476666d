-- ===== src/Limits.antt =====
-- backend/app/web_security.py and backend/app/rate_limits.py: limits on what a client sends.
pub mod Headers
pub mod Receive
pub mod BodyLimit
pub mod Delivered
pub mod InFlight
pub mod FixedWindow
pub mod Counted
pub mod SlidingWindow
pub mod Entries
pub mod Recent
mod Tests
