-- ===== src/Scheduler/Crawl/Rescheduled.antt =====
-- Every crawl, however it ends, writes the schedule of its page once.
use rabbot_seo.Base.{
  ℕ, ◌+◌, ◌*◌, ◌≤◌, ◌≡◌, refl, ap, ◌∙◌, String, false, ◌||◌, List, [], ◌∷◌, ltb, leb, arith,
  Bool-cases, inl, inr,
}
use rabbot_seo.Base.Result.{Result, err}
use rabbot_seo.Scheduler.Interval.{is_backoff_class, next_interval, second, recompute_next_check}
use rabbot_seo.Scheduler.Interval.Bounds.{reschedule_bounds, clamp-bounds}
use rabbot_seo.Scheduler.Interval.Backoff.{reschedule_ahead}
use rabbot_seo.Scheduler.Crawl.{
  Url, Fetched, ScheduleWrite, Crawler, CrawlResult, retry_after_of, after_fetch,
}
use rabbot_seo.Scheduler.Crawl.One.{
  skipped_result, advance_schedule, finish, space, fetch_and_finish, acquire_and_fetch, crawl_one,
}
use rabbot_seo.Scheduler.Crawl.Logged.{IsLog, after_fetch-log}

-- A write that schedules the page within the bounds, and ahead.
abbrev pub Schedules : ℕ → ℕ → ℕ → ℕ → ScheduleWrite → Type 0
Schedules url lo hi now x =
    (x.url_id ≡ url)
    × (lo ≤ x.interval)
    × (x.interval ≤ hi)
    × (now + x.interval * second ≤ x.next_check_at)

-- The log has one write more, and it schedules the page.
abbrev pub WritesOnce :
    {W E : Type 0} → (W → List ScheduleWrite) → Url → ℕ → ℕ → ℕ → W → CrawlResult E × W → Type 0
WritesOnce log u lo hi now w out =
    (x : ScheduleWrite) × (log out.1 ≡ x ∷ log w) × Schedules u.id lo hi now x

either :
    {E A Y : Type 0} (P : Y → Type 0) (r : Result E A) (f : A → Y) (g : E → Y)
    → ((a : A) → P (f a))
    → ((e : E) → P (g e))
    → P (elim r as (λ _. Y) [ Result.ok a ↦ f a | err e ↦ g e ])
either P (Result.ok a) f g h k = h a
either P (err e) f g h k = k e

module _ {W E : Type 0} (c : Crawler W E) (log : W → List ScheduleWrite) (v : IsLog c log)
    (host : String → String) (u : Url) (lo hi now : ℕ) (order : lo ≤ hi) where
  -- The database's call, after calls that left the log alone.
  update-log :
      (x : ScheduleWrite) (before w : W)
      → log w ≡ log before
      → log (c.update_url_schedule x w).1 ≡ x ∷ log before
  update-log x before w same = v.update_url_schedule x w ∙ ap (λ l. x ∷ l) same

  advance-WritesOnce :
      (interval at : ℕ) (res : CrawlResult E) (before w : W)
      → log w ≡ log before
      → lo ≤ interval
      → interval ≤ hi
      → now + interval * second ≤ at
      → WritesOnce log u lo hi now before (advance_schedule c host u lo hi now (interval, at) res w)
  unfolding advance_schedule
  advance-WritesOnce interval at res before w same a b d =
      (_, update-log _ before w same, (refl, a, b, d))

  finish-WritesOnce :
      (f : Fetched) (before w : W)
      → log w ≡ log before
      → WritesOnce log u lo hi now before (finish c host u lo hi now f w)
  unfolding finish
  finish-WritesOnce f before w same =
      let failing = is_backoff_class f.fetch_class || leb 500 f.http_status in
      let reported = c.report (host u.url) f.response_time failing w in
      let out = after_fetch c u f reported in
      let header = retry_after_of f.header in
      let bounds =
        reschedule_bounds u.interval lo hi out.0.0 f.fetch_class f.http_status header now order in
      (
        _,
        v.release (host u.url) _
            ∙ update-log _ before out.1 (
                after_fetch-log c log v u f reported
                ∙ v.report (host u.url) f.response_time failing w
                ∙ same),
        (
          refl,
          bounds.0,
          bounds.1,
          reschedule_ahead u.interval lo hi out.0.0 f.fetch_class f.http_status header now,
        ),
      )

  space-log : (w : W) → log (space c host u lo hi now w) ≡ log w
  unfolding space
  space-log w = elim (Bool-cases (ltb 0 (c.crawl_delay u.url w).0)) [
    | inl slow ↦ rw slow (v.set_min_interval _ _ _ ∙ v.crawl_delay u.url w)
    | inr free ↦ rw free (v.crawl_delay u.url w)
  ]

  recompute-bounds :
      (lo ≤ (recompute_next_check u.interval false lo hi now).0)
      × ((recompute_next_check u.interval false lo hi now).0 ≤ hi)
  unfolding recompute_next_check next_interval
  recompute-bounds = clamp-bounds lo hi _ order

  recompute-ahead :
      now + (recompute_next_check u.interval false lo hi now).0 * second
      ≤ (recompute_next_check u.interval false lo hi now).1
  unfolding recompute_next_check
  recompute-ahead = omega arith

  acquire-WritesOnce :
      (before w : W)
      → log w ≡ log before
      → WritesOnce log u lo hi now before (acquire_and_fetch c host u lo hi now w)
  unfolding acquire_and_fetch fetch_and_finish
  acquire-WritesOnce before w same =
      let w1 = (c.acquire (host u.url) w).1 in
      let stopped = recompute_next_check u.interval false lo hi now in
      let bounds = recompute-bounds in
      either (WritesOnce log u lo hi now before) (c.acquire (host u.url) w).0
        (λ x. fetch_and_finish c host u lo hi now w1)
        (λ e. advance_schedule c host u lo hi now stopped (skipped_result u "frontier" (e ∷ [])) w1)
        (λ x.
          finish-WritesOnce (c.fetch u.url u.etag u.last_modified w1).0 before
            (c.fetch u.url u.etag u.last_modified w1).1
            (v.fetch u.url u.etag u.last_modified w1 ∙ v.acquire (host u.url) w ∙ same))
        (λ e.
          advance-WritesOnce stopped.0 stopped.1 (skipped_result u "frontier" (e ∷ [])) before w1
            (v.acquire (host u.url) w ∙ same) bounds.0 bounds.1 recompute-ahead)

  -- From bounds in order, every way out of a crawl writes the schedule of its page, and once: its robots
  -- rules forbid it, the frontier gives no slot, the fetch fails, the extractor, the database, the
  -- processor or a hook fails. The interval is within the bounds, and the next check is not due before
  -- it has passed, so the page is not due again at once.
  pub crawl_one-WritesOnce : (w : W) → WritesOnce log u lo hi now w (crawl_one c host u lo hi now w)
  unfolding crawl_one
  crawl_one-WritesOnce w = elim (Bool-cases (c.allowed u.url w).0) [
    | inl allowed ↦
        let w1 = (c.allowed u.url w).1 in
        rw allowed
          (acquire-WritesOnce w (space c host u lo hi now w1) (space-log w1 ∙ v.allowed u.url w))
    | inr refused ↦ rw refused (
        advance-WritesOnce hi (now + hi * second) (skipped_result u "robots_disallowed" []) w
          (c.allowed u.url w).1 (v.allowed u.url w) order (omega arith) (omega arith))
  ]
