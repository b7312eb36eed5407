-- ===== src/Jd.antt =====
-- backend/app/core_engine: the extraction of a job posting and its store.
pub mod Classify
pub mod Injection
pub mod Schema
pub mod Budget
pub mod Store
pub mod Env
pub mod Section
pub mod Doors
pub mod Ask
pub mod Extract
pub mod Refresh
pub mod Keeps
mod Fixtures
mod Tests
