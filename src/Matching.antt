-- ===== src/Matching.antt =====
-- backend/app/face.py and backend/app/photographer.py: bib numbers in recognised text.
pub mod Token
pub mod Candidates
pub mod Substring
pub mod Evidence
pub mod LongestCommon
pub mod CommonSubstring
pub mod PartialMatch
pub mod Strong
pub mod Canonical
mod Tests
