-- ===== src/Scheduler/Crawl/One.antt =====
-- `CrawlOne` and `advanceSchedule` of internal/scheduler/crawl.go.
use rabbot_seo.Base.{
  ℕ, ◌+◌, ◌*◌, String, false, ◌||◌, none, some, List, [], ◌∷◌, ltb, leb, if◌then◌else◌,
}
use rabbot_seo.Base.Result.{Result, err}
use rabbot_seo.Scheduler.Interval.{second, recompute_next_check, is_backoff_class, reschedule}
use rabbot_seo.Scheduler.Crawl.{
  Url, Fetched, Crawler, CrawlResult, or_error, errors, retry_after_of, validators, after_fetch,
}

abbrev pub skipped_result : {E : Type 0} → Url → String → List E → CrawlResult E
skipped_result u why es = record {
  url_id = u.id;
  fetch_class = none;
  http_status = 0;
  skipped = why;
  detector = "";
  error = es;
}

module _ {W E : Type 0} (c : Crawler W E) (host : String → String) (u : Url) (lo hi now : ℕ) where
  -- `advanceSchedule`, on the result so far.
  unfoldable pub advance_schedule : ℕ × ℕ → CrawlResult E → W → CrawlResult E × W
  advance_schedule (interval, at) res w =
      let (r, w1) =
        c.update_url_schedule
          (record {
            url_id = u.id;
            next_check_at = at;
            interval = interval;
            last_fetch = u.last_fetch_class;
            etag = u.etag;
            last_modified = u.last_modified;
          })
          w in
      (record res { error = or_error res.error (errors r) }, w1)

  -- From the answer of the fetcher to the end.
  unfoldable pub finish : Fetched → W → CrawlResult E × W
  unfolding after_fetch reschedule
  finish f w =
      let failing = is_backoff_class f.fetch_class || leb 500 f.http_status in
      let reported = c.report (host u.url) f.response_time failing w in
      let ((changed, es), w1) = after_fetch c u f reported in
      let (etag, last_modified) = validators u f in
      let (interval, at) =
        reschedule u.interval changed lo hi f.fetch_class f.http_status (retry_after_of f.header)
          now in
      let (r, w2) =
        c.update_url_schedule
          (record {
            url_id = u.id;
            next_check_at = at;
            interval = interval;
            last_fetch = f.fetch_class;
            etag = etag;
            last_modified = last_modified;
          })
          w1 in
      (
        record {
          url_id = u.id;
          fetch_class = some f.fetch_class;
          http_status = f.http_status;
          skipped = "";
          detector = f.detector;
          error = or_error es (errors r);
        },
        c.release (host u.url) w2,
      )

  -- The host's spacing is raised before the slot is taken.
  unfoldable pub space : W → W
  space w =
      let (delay, w1) = c.crawl_delay u.url w in
      if ltb 0 delay then c.set_min_interval (host u.url) delay w1 else w1

  unfoldable pub fetch_and_finish : W → CrawlResult E × W
  unfolding finish
  fetch_and_finish w = let (f, w1) = c.fetch u.url u.etag u.last_modified w in finish f w1

  unfoldable pub acquire_and_fetch : W → CrawlResult E × W
  unfolding fetch_and_finish advance_schedule
  acquire_and_fetch w =
      let (slot, w1) = c.acquire (host u.url) w in
      elim slot [
        | err e ↦
            advance_schedule (recompute_next_check u.interval false lo hi now)
              (skipped_result u "frontier" (e ∷ [])) w1
        | Result.ok x ↦ fetch_and_finish w1
      ]

  unfoldable pub crawl_one : W → CrawlResult E × W
  unfolding acquire_and_fetch space advance_schedule
  crawl_one w =
      let (allowed, w1) = c.allowed u.url w in
      if allowed
      then acquire_and_fetch (space w1)
      else advance_schedule (hi, now + hi * second) (skipped_result u "robots_disallowed" []) w1
