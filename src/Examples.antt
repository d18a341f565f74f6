-- ===== src/Examples.antt =====
-- Runs of the theorems on small concrete inputs.
mod Alerts
mod Identity
mod Rules
mod Crawl
mod Schedule
mod Defaults
mod Settings
mod Discovery
mod Gsc
mod Fetches
mod RobotsFiles
mod Control
