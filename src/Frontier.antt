-- ===== src/Frontier.antt =====
-- internal/frontier: what a crawl waits for before it may ask a host for a page.
pub mod Robots
pub mod Pacing
