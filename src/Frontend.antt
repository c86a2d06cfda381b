-- ===== src/Frontend.antt =====
-- The front end: talking to the server (Frontend/Api), watching a job (Frontend/Watch), choosing an
-- operation (Frontend/Picker), the screen (Frontend/Screen), the drop target (Frontend/DropZone) and
-- the results (Frontend/Results). React is read as documented; markup is left out.
pub mod Api
pub mod Uploading
pub mod Running
pub mod Watch
pub mod Picker
pub mod Screen
pub mod DropZone
pub mod Results
pub mod Progress
pub mod Page
mod Tests
