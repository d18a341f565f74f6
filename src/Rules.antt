-- ===== src/Rules.antt =====
-- internal/rules: the engine that turns the verdicts of the rules on one page into open and closed
-- issues, with the adapter that reports what it newly opened (internal/supervisor/wiring.go).
pub mod Engine
pub mod Bridge
pub mod RedirectChain
pub mod Default
