-- ===== src/Scheduler.antt =====
-- internal/scheduler: when a page is checked again, and what a fetch makes of the alerts.
pub mod Interval
pub mod Process
pub mod Crawl
pub mod GscSignals
