-- ===== src/Downloads.antt =====
-- The download queue: core/models/download.py and `DownloadRepository` of
-- infrastructure/repositories/download.py.
pub mod Model
pub mod Repository
pub mod Manager
pub mod Partials
mod Tests
