-- ===== src/Recognition.antt =====
-- backend/app/face.py and backend/app/models.py: what the results of the worker's jobs leave in the tables
-- of detections, embeddings and matches.
pub mod Tables
pub mod Faces
pub mod BestScores
pub mod Reinforcement
pub mod Bounded
mod Tests
