-- ===== src/Jobs.antt =====
-- Background jobs: the queue of server/jobs.py and the worker of server/worker.py.
pub mod Model
pub mod Queue
pub mod Worker
pub mod Attempts
pub mod Drain
pub mod Laws
pub mod Examples
pub mod Settled
