-- ===== src/Jobs.antt =====
-- app/jobs: the two daily jobs.
pub mod AutoKick
pub mod ExpirationWarnings
