-- ===== src/Files.antt =====
-- The upload endpoints: files/repository.ts in Files/Records, files/routes.ts in Files/Routes.
pub mod Records
pub mod Routes
