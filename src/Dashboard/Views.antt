-- ===== src/Dashboard/Views.antt =====
-- What the dashboard's pages are rendered from: dashboard/views.py.
mod Tests
pub mod Chart
pub mod Activity
