-- ===== src/Test.antt =====
-- Runs on concrete inputs, and the theorems at such inputs.
pub mod Net
pub mod Data
pub mod Ranges
pub mod Handlers
pub mod Checks
pub mod Lock
pub mod Controllers
pub mod Endpoints
pub mod Plugin
pub mod Edits
pub mod Slices
