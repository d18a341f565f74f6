-- ===== src/Alerts.antt =====
-- internal/alerts: the incident pipeline, its throttle and its access gate.
pub mod Throttle
pub mod Calls
pub mod Access
pub mod AutoClose
pub mod Event
pub mod Pipeline
