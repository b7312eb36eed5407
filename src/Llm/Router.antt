-- ===== src/Llm/Router.antt =====
-- `route_llm_request` (backend/app/llm/router.py): chain resolution, one attempt after another,
-- and what is written when every provider fails.
pub mod Count
pub mod Types
pub mod Resolve
pub mod Attempt
pub mod Exhaust
pub mod Route
pub mod Turn
pub mod Reports
mod Tests
pub mod Order
pub mod Results
pub mod Loop
pub mod Calls
