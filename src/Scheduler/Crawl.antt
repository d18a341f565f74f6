-- ===== src/Scheduler/Crawl.antt =====
-- internal/scheduler/crawl.go: one crawl of a page. The frontier, the robots cache, the fetcher, the
-- extractor, the database and the hooks act on a world `W` and fail with errors in `E`; an error value
-- is the list of the errors that it joins, the empty list is nil. The clock is read once for a crawl.
pub mod One
pub mod Logged
pub mod Rescheduled
use rabbot_seo.Base.{
  ℕ, ◌+◌, ◌*◌, String, Bool, true, false, not, ◌&&◌, ◌||◌, Option, none, some, List, [], ◌∷◌, ltb,
  leb, if◌then◌else◌, str_eq,
}
use rabbot_seo.Base.Result
use rabbot_seo.Base.Result.{Result, err}
use rabbot_seo.Model.{FetchClass, ok, soft_block, hard_block, unreachable}
use rabbot_seo.Diff.{Snapshot}
use rabbot_seo.Scheduler.Interval.{
  second, RetryAfter, absent, recompute_next_check, is_backoff_class, reschedule,
}

-- The fields of model.URL that a crawl reads.
pub record Url : Type 0 where
  pub id : ℕ
  pub site_id : ℕ
  pub url : String
  pub interval : ℕ
  pub etag : String
  pub last_modified : String
  pub last_fetch_class : FetchClass

-- The response headers that a crawl reads; an absent one is the empty text.
pub record Header : Type 0 where
  pub etag : String
  pub last_modified : String
  pub retry_after : RetryAfter

-- fetcher.Result.
pub record Fetched : Type 0 where
  pub fetch_class : FetchClass
  pub http_status : ℕ
  pub detector : String
  pub not_modified : Bool
  pub body : String
  pub header : Option Header
  pub response_time : ℕ
  pub truncated : Bool

-- `LatestSnapshot`: the sentinel `ErrNotFound` is not a failure.
pub data Latest (E : Type 0) : Type 0 where
  prior : Snapshot → Latest E
  no_prior : Latest E
  unread : E → Latest E

-- One call of `UpdateURLSchedule`.
pub record ScheduleWrite : Type 0 where
  pub url_id : ℕ
  pub next_check_at : ℕ
  pub interval : ℕ
  pub last_fetch : FetchClass
  pub etag : String
  pub last_modified : String

-- What a `Crawler` holds. A hook that is not wired is `none`.
pub record Crawler (W E : Type 0) : Type 0 where
  pub allowed : String → W → Bool × W
  pub crawl_delay : String → W → ℕ × W
  pub set_min_interval : String → ℕ → W → W
  pub acquire : String → W → Result E (Unit {0}) × W
  pub release : String → W → W
  pub report : String → ℕ → Bool → W → W
  pub fetch : String → String → String → W → Fetched × W
  pub extract : Fetched → W → Result E (Snapshot × List String) × W
  pub latest_snapshot : ℕ → W → Latest E × W
  pub save_snapshot : Snapshot → W → Result E ℕ × W
  pub has_site : ℕ → W → Result E (Unit {0}) × W
  pub processor : Option (Url → Snapshot → Snapshot → Fetched → W → (Bool × List E) × W)
  pub discoverer : Option (Url → List String → W → Result E (Unit {0}) × W)
  pub graph : Option (Url → List String → W → Result E (Unit {0}) × W)
  pub update_url_schedule : ScheduleWrite → W → Result E (Unit {0}) × W

-- `model.Snapshot{}`
abbrev pub zero_snapshot : Snapshot
zero_snapshot = record {
  id = 0;
  url_id = 0;
  http_status = 0;
  redirect_chain = "";
  title = "";
  meta_description = "";
  meta_robots = "";
  x_robots_tag = "";
  canonical = "";
  hreflang = "";
  headings = "";
  word_count = 0;
  content_sha256 = "";
  content_simhash = 0;
  schema_types = "";
  internal_link_count = 0;
  external_link_count = 0;
  image_count = 0;
  missing_alt_count = 0;
  indexable = false;
  indexability_reason = "";
  render_mode = "";
}

pub record CrawlResult (E : Type 0) : Type 0 where
  pub url_id : ℕ
  pub fetch_class : Option FetchClass
  pub http_status : ℕ
  pub skipped : String
  pub detector : String
  pub error : List E

-- `if err != nil && res.Err == nil { res.Err = err }`
abbrev pub or_error : {E : Type 0} → List E → List E → List E
or_error [] e = e
or_error (x ∷ xs) e = x ∷ xs

abbrev pub errors : {E A : Type 0} → Result E A → List E
errors (Result.ok a) = []
errors (err e) = e ∷ []

abbrev pub is_ok : FetchClass → Bool
is_ok ok = true
is_ok _ = false

abbrev pub is_wired : {A : Type 0} → Option A → Bool
is_wired none = false
is_wired (some a) = true

abbrev pub retry_after_of : Option Header → RetryAfter
retry_after_of none = absent
retry_after_of (some h) = h.retry_after

-- The validators that the next crawl sends: the old ones on a 304, and for each one that is not in
-- the response.
abbrev pub newer : String → String → String
newer old new = if str_eq new "" then old else new

abbrev pub validators : Url → Fetched → String × String
validators u r = elim r.header [
  | none ↦ (u.etag, u.last_modified)
  | some h ↦
      if r.not_modified
      then (u.etag, u.last_modified)
      else (newer u.etag h.etag, newer u.last_modified h.last_modified)
]

module _ {W E : Type 0} (c : Crawler W E) (u : Url) where
  -- `process`
  unfoldable pub process : Snapshot → Snapshot → Fetched → W → (Bool × List E) × W
  process new old r w = elim c.processor [
    | none ↦ ((false, []), w)
    | some p ↦
        let (site, w1) = c.has_site u.site_id w in
        let processed = p u new old r w1 in
        elim site [ Result.ok x ↦ processed | err e ↦ ((false, e ∷ []), w1) ]
  ]

  -- A hook, if it is wired, and the error so far.
  unfoldable pub run_hook :
      Option (Url → List String → W → Result E (Unit {0}) × W)
      → List String
      → List E × W
      → List E × W
  run_hook none links (es, w) = (es, w)
  run_hook (some hook) links (es, w) = let (r, w1) = hook u links w in (or_error es (errors r), w1)

  unfoldable pub run_hooks : List String → List E × W → List E × W
  unfolding run_hook
  run_hooks links (es, w) =
      if is_wired c.discoverer || is_wired c.graph
      then (let (site, w1) = c.has_site u.site_id w in
          let hooked = run_hook c.graph links (run_hook c.discoverer links (es, w1)) in
          elim site [ Result.ok x ↦ hooked | err e ↦ (es, w1) ])
      else (es, w)

  -- Past the write of the snapshot.
  unfoldable pub compare_with :
      Snapshot → Latest E → List String → Fetched → W → (Bool × List E) × W
  unfolding process run_hooks
  compare_with snap (unread e) links r w = ((false, e ∷ []), w)
  compare_with snap no_prior links r w =
      let ((changed, es), w1) = process snap zero_snapshot r w in
      let (es', w2) = run_hooks links (es, w1) in ((changed, es'), w2)
  compare_with snap (prior old) links r w =
      let ((changed, es), w1) = process snap old r w in
      let (es', w2) = run_hooks links (es, w1) in ((changed, es'), w2)

  unfoldable pub store_and_compare : Snapshot → List String → Fetched → W → (Bool × List E) × W
  unfolding compare_with
  store_and_compare snap links r w =
      let page = record snap { url_id = u.id } in
      let (latest, w1) = c.latest_snapshot u.id w in
      let (saved, w2) = c.save_snapshot page w1 in
      elim saved [
        | err e ↦ ((false, e ∷ []), w2)
        | Result.ok i ↦ compare_with (record page { id = i }) latest links r w2
      ]

  -- Between the fetch and the schedule: whether a change was seen, and the error.
  unfoldable pub after_fetch : Fetched → W → (Bool × List E) × W
  unfolding store_and_compare process
  after_fetch r w =
      if is_ok r.fetch_class && not r.not_modified && not (str_eq r.body "")
      then (let (extracted, w1) = c.extract r w in
          elim extracted [
            | err e ↦ ((false, e ∷ []), w1)
            | Result.ok (snap, links) ↦ store_and_compare snap links r w1
          ])
      else if is_wired c.processor && (not (is_ok r.fetch_class) || r.not_modified)
      then (let ((changed, es), w1) = process zero_snapshot zero_snapshot r w in ((false, es), w1))
      else ((false, []), w)
