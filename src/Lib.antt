-- ===== src/Lib.antt =====
-- Verification of the core of rabbot, a daemon that watches web sites for SEO regressions: it crawls
-- pages, compares snapshots, evaluates rules, keeps issues and incidents, and notifies.
--
-- The parts, from a fetch to a message, and the files that model them (paths from the repository's
-- root):
--   * Diff: internal/diff. `compare` is Compare, `compare_file` CompareFile.
--   * RobotsMeta: internal/robotsmeta. `parse` and `is_noindex`.
--   * Scheduler.Crawl: internal/scheduler/crawl.go. `crawl_one` is CrawlOne over a record of the
--     components that a Crawler holds; `after_fetch` is the part between the fetch and the schedule.
--   * Scheduler.Interval: internal/scheduler/importance.go and the schedule of crawl.go:
--     `recompute_next_check`, `backoff_schedule`, `parse_retry_after`, and `reschedule`, the choice
--     that CrawlOne makes between them.
--   * Scheduler.Process: internal/scheduler/process.go. `process_fetch` is ProcessFetch over a record
--     of dependencies (ProcessorDeps) that act on a world of theirs; its loops `ingest_changes` and
--     `bridge_findings` send events. Scheduler.Process.Select describes the events as one list.
--   * Rules.Engine: internal/rules/engine.go. `apply` is Engine.Apply on a store of issues.
--     Rules.Bridge: ApplyRules of internal/supervisor/wiring.go and
--     internal/scheduler/rules_bridge.go.
--     Rules.Default: the rules of internal/rules/default_rules.go and dormant_signals.go.
--     Rules.RedirectChain: RedirectChainInfo of dormant_signals.go, which the recovery of signals in
--     internal/scheduler/process.go calls too.
--   * Store.Issues, Store.Incidents: the SQL statements of internal/store/issues.go, incidents.go and
--     alert_members.go, as functions on tables.
--   * Alerts.Throttle, Alerts.Event, Alerts.Calls, Alerts.Pipeline, Alerts.Access: internal/alerts.
--     `ingest`, `resolve` and `handle_fetch_class` are Ingest, Resolve and HandleFetchClass. They are
--     actions on a world: the tables, the throttle, the digest, the deliveries, and the faults to
--     come. A call out of the process takes one fault; the empty list of faults is a quiet world.
--     Alerts.Pipeline.Marking and Alerts.Pipeline.Clearing are about runs with any faults.
--   * Alerts.AutoClose: the sweep of internal/alerts/timers.go.
--   * Notify: internal/notify/notify.go and registry.go.
--   * Scheduler.GscSignals: internal/scheduler/gscsignals.go. `evaluate` is Evaluate, on the modelled
--     pipeline; Scheduler.GscSignals.Decisions describes what a signal decides of a page.
--   * Discovery: internal/discovery/discovery.go. `enqueue_links` and `collect_and_seed` are
--     EnqueueLinks and CollectAndSeed; Discovery.Sitemaps has the search of the sitemaps, which ends
--     since each turn takes a document from the queue and only its 50 fetches refill it.
--   * Fetcher: internal/fetcher. Fetcher.Trip has the redirects, `trip` being the call of `client.Do`;
--     Fetcher.Fetch makes the result of a trip (`fetch` is Fetch); Fetcher.Classify and Fetcher.Ssrf are
--     classify.go, status.go and ssrf.go.
--   * Frontier.Robots: internal/frontier/robots.go. The calls of entryFor, their single flight and the
--     passing of time are a step relation: `advance` makes one move, `Reachable` any number of them.
--   * Frontier.Pacing: internal/frontier/frontier.go. `run` does the operations that callers ask of a
--     frontier (SetMinInterval, SetHostRate, Report, Acquire and the release of a slot) one after another.
--   * Verify: internal/verify. `verify` is Verify; a surface is read by `ask`. In Verify.Check, `check` is
--     Check and `save_verification` the statement of internal/store/verification.go.
--   * Segments: internal/segments. `compile` is Compile, `match_url` Match.
--   * Config: internal/config. `resolve_crawl` of Config.Throttle is ResolveCrawl,
--     `allow_config_key` of Config.Allowlist is AllowConfigKey.
--   * Urlx: the percent-encodings of internal/urlx/urlx.go. Urlx.Dots: removeDotSegments of that file.
--   * Model: internal/model/model.go. Base: Boolean tests, lists, texts and results.
--   * Examples: the theorems at concrete inputs.
--
-- The processor calls the access gate, the rules adapter and the pipeline; the pipeline calls the
-- incident tables, the throttle and the router; the engine calls the issue table. Each handler of the
-- pipeline holds a lock for its incident's identity while it runs, so it is one step here.
--
-- Numbers are natural numbers: times and durations in nanoseconds, intervals in seconds. Where 64-bit
-- arithmetic may wrap (the delay of a Retry-After header, the speed dial) it is written out. Texts are sequences of
-- code points. Functions of Go's library that only pass values on (the hash of a fingerprint, JSON
-- encoding and decoding, the parsers of durations and of sitemaps) are arguments, as are the canonical
-- key of a link and the tests on URLs that discovery calls, the parser of robots.txt, and of net/http
-- which headers it copies to a redirected request, and strings.EqualFold; one theorem,
-- on the identity of incidents, assumes that the hash tells different inputs apart. `itoa` prints at most 19
-- digits, as many as an int has. `remove_dot_segments` gives its loop one turn more than the path is long,
-- and each turn but the last reads some of it. No other definition has fuel. Of the proof of control, the
-- network, the resolver, the HTML parser and the HMAC are arguments, of the segments the regular
-- expressions, and of the pacing the arithmetic of the back-off factor and the rate limiter's spacing.
--
-- Not modelled: float64 arithmetic (impact points, health scores, cold-start importance), metrics and
-- logs, the network, the control plane and the command line.
pub mod Base
pub mod Model
pub mod Notify
pub mod Store
pub mod Alerts
pub mod Rules
pub mod Urlx
pub mod Fetcher
pub mod Verify
pub mod Segments
pub mod Frontier
pub mod Discovery
pub mod Config
pub mod Diff
pub mod RobotsMeta
pub mod Scheduler
pub mod Examples
