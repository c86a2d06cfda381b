-- ===== src/Shutdown.antt =====
-- The shutdowns of the two processes, jobs/worker.ts and server.ts, each as a process that runs by what
-- happens to it, with several shutdowns under way side by side.
pub mod Worker
pub mod Server
