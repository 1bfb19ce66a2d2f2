-- ===== src/Db.antt =====
-- The rows of a task's results and their mapping from and to message contents
-- (db/result_mapping.py, db/models.py).
pub mod Rows
pub mod Tables
pub mod Repos
pub mod Inserted
pub mod Store
pub mod Again
pub mod Sound
pub mod Steps
pub mod Additions
pub mod Saved
pub mod Twice
pub mod Merged
pub mod Found
pub mod Spec
pub mod Own
pub mod Others
pub mod Refinement
pub mod Contents
pub mod Roundtrip
pub mod Recovery
pub mod Buckets
