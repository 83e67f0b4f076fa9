-- ===== src/Jobs.antt =====
-- sdk/src/jobs: the job repository, the notifier of job updates, and the pruner of old jobs.
pub mod Notifier
pub mod Repository
pub mod Pruner
