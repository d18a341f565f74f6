-- ===== src/Examples/Schedule.antt =====
-- A crawl of a failing page, in a world that is the log of schedule writes.
use mathlib.Core.Path.{subst}
use rabbot_seo.Base.{◌≡◌, refl, String, Bool, true, false, Option, none, some, List, [], ◌∷◌, arith}
use rabbot_seo.Base.Result.{ok, err}
use rabbot_seo.Model
use rabbot_seo.Diff.{Snapshot}
use rabbot_seo.Scheduler.Interval.{seconds}
use rabbot_seo.Scheduler.Crawl.{Url, Fetched, no_prior, ScheduleWrite, Crawler, zero_snapshot}
use rabbot_seo.Scheduler.Crawl.One.{crawl_one}
use rabbot_seo.Scheduler.Crawl.Logged.{IsLog}
use rabbot_seo.Scheduler.Crawl.Rescheduled
use rabbot_seo.Scheduler.Crawl.Rescheduled.{WritesOnce}

abbrev answer : Fetched
answer = record {
  fetch_class = Model.soft_block;
  http_status = 429;
  detector = "";
  not_modified = false;
  body = "slow down";
  header = some (record { etag = ""; last_modified = ""; retry_after = seconds 7200 });
  response_time = 5;
  truncated = false;
}

abbrev crawler : Crawler (List ScheduleWrite) String
crawler = record {
  allowed = λ u w. (true, w);
  crawl_delay = λ u w. (10, w);
  set_min_interval = λ h d w. w;
  acquire = λ h w. (ok tt, w);
  release = λ h w. w;
  report = λ h t b w. w;
  fetch = λ u e l w. (answer, w);
  extract = λ f w. (ok (zero_snapshot, []), w);
  latest_snapshot = λ i w. (no_prior, w);
  save_snapshot = λ s w. (err "disk full", w);
  has_site = λ i w. (ok tt, w);
  processor = some (λ u new old f w. ((true, []), w));
  discoverer = none;
  graph = none;
  update_url_schedule = λ x w. (ok tt, x ∷ w);
}

abbrev LogKept :
    Option (
      Url
      → Snapshot
      → Snapshot
      → Fetched
      → List ScheduleWrite
      → (Bool × List String) × List ScheduleWrite)
    → Url
    → Snapshot
    → Snapshot
    → Fetched
    → List ScheduleWrite
    → Type 0
LogKept none u new old f w = Unit
LogKept (some p) u new old f w = (p u new old f w).1 ≡ w

crawler-IsLog : IsLog crawler (λ w. w)
crawler-IsLog = record {
  allowed = λ u w. refl;
  crawl_delay = λ u w. refl;
  set_min_interval = λ h d w. refl;
  acquire = λ h w. refl;
  release = λ h w. refl;
  report = λ h t b w. refl;
  fetch = λ u e l w. refl;
  extract = λ f w. refl;
  latest_snapshot = λ i w. refl;
  save_snapshot = λ s w. refl;
  has_site = λ i w. refl;
  processor = λ p h u new old f w. subst (λ o. LogKept o u new old f w) h refl;
  discoverer = λ h q u links w. cc;
  graph = λ h q u links w. cc;
  update_url_schedule = λ x w. refl;
}

abbrev url : Url
url = record {
  id = 7;
  site_id = 1;
  url = "https://a.example/x";
  interval = 600;
  etag = "";
  last_modified = "";
  last_fetch_class = Model.ok;
}

crawl_one-WritesOnce_example :
    WritesOnce (λ w. w) url 300 86400 1000 [] (crawl_one crawler (λ u. u) url 300 86400 1000 [])
crawl_one-WritesOnce_example =
    Rescheduled.crawl_one-WritesOnce crawler (λ w. w) crawler-IsLog (λ u. u) url 300 86400 1000
      (omega arith) []
