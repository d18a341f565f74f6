-- ===== src/Scheduler/Process.antt =====
-- internal/scheduler/process.go: what a completed fetch makes of changes, findings and alerts. The
-- processor's dependencies (the database, the rules adapter and the alert pipeline) act on a world
-- `W` of theirs and may fail with an error in `E`; `errors.Join` is the list of the errors.
pub mod Flow
pub mod Select
pub mod Emitted
pub mod Collapse
use rabbot_seo.Base.{
  ℕ, String, Bool, true, false, not, ◌&&◌, ◌||◌, Option, none, some, List, [], ◌∷◌, ◌++◌, ltb, leb,
  ◌==◌, if◌then◌else◌, str_eq, contains_string, keep, ◌<>◌, codes,
}
use rabbot_seo.Base.Result.{Result, ok, err}
use rabbot_seo.Model
use rabbot_seo.Model.{Severity, critical, warning, info, FetchClass}
use rabbot_seo.Diff.{Change, Snapshot, is_cosmetic, has_field, compare, itoa}
use rabbot_seo.RobotsMeta.{is_noindex}
use rabbot_seo.Alerts.Event.{Event}
use rabbot_seo.Alerts.Access.{AccessContext}
use rabbot_seo.Rules.Bridge.{NewFinding}

-- The site and the URL that were fetched.
pub record Page : Type 0 where
  pub site_id : ℕ
  pub base_url : String
  pub url_id : ℕ
  pub url : String

-- `ProcessorDeps`.
pub record ProcessorDeps (W E : Type 0) : Type 0 where
  pub record_changes : List Change → W → Result E (Unit {0}) × W
  pub apply_rules :
      Page → Snapshot → Snapshot → List Change → Bool → W → Result E (List NewFinding) × W
  pub handle_fetch_class : AccessContext → W → Result E Bool × W
  pub ingest_event : Event → W → Result E (Unit {0}) × W
  pub resolve_event : Event → W → Result E (Unit {0}) × W
  pub record_health_score : ℕ → ℕ → W → Result E (Unit {0}) × W

-- The seams that may be unwired, and the decoding of a stored redirect chain by encoding/json.
pub record Seams : Type 0 where
  pub segments_for : Option (ℕ → String → List String)
  pub blast_radius : Option (ℕ → String → Option (ℕ × ℕ))
  pub decode_chain : String → Option (List String)

abbrev segments_for_url : Seams → Page → List String
segments_for_url s page = elim s.segments_for [ none ↦ [] | some f ↦ f page.site_id page.url ]

abbrev blast_suffix : Option (ℕ × ℕ) → String → String
blast_suffix none after = after
blast_suffix (some (inlinks, high)) after =
    after <> "  — linked from " <> itoa inlinks <> " pages (" <> itoa high <> " high-importance)"

unfoldable pub enrich_http_status : Seams → String → ℕ → Page → String → String
enrich_http_status s change_type status page after = elim s.blast_radius [
  | none ↦ after
  | some radius ↦
      if not (str_eq change_type "http_status") || ltb status 400
      then after
      else blast_suffix (radius page.site_id page.url) after
]

unfoldable pub drop_content_changes : List Change → List Change
drop_content_changes = keep (λ c. not (str_eq c.field "content"))

abbrev pub critical_fields : List String
critical_fields =
    "indexable" ∷ "indexability_reason" ∷ "canonical" ∷ "meta_robots" ∷ "x_robots_tag"
    ∷ "http_status" ∷ "robots_txt" ∷ "robots_txt_status" ∷ "sitemap_xml_status" ∷ []

abbrev pub warning_fields : List String
warning_fields =
    "title" ∷ "meta_description" ∷ "headings" ∷ "schema_types" ∷ "hreflang" ∷ "redirect_chain"
    ∷ "internal_link_count" ∷ "content" ∷ "sitemap_xml" ∷ "sitemap_coverage_drift"
    ∷ "index_status_discrepancy" ∷ "google_canonical_mismatch" ∷ []

unfoldable pub severity_for_field : String → Severity
unfolding contains_string
severity_for_field field =
    if contains_string critical_fields field
    then critical
    else if contains_string warning_fields field
    then warning
    else info

unfoldable pub has_substantive : List Change → Bool
has_substantive [] = false
has_substantive (c ∷ cs) = if is_cosmetic c.change_class then has_substantive cs else true

-- The value of the last such change.
reason_of : String → List Change → String
reason_of seen [] = seen
reason_of seen (c ∷ cs) =
    reason_of (if str_eq c.field "indexability_reason" then c.new_value else seen) cs

-- What the crawl's change set says before any event is sent.
pub record Flags : Type 0 where
  pub indexable_flipped : Bool
  pub status_regressed : Bool
  pub indexability_reason : String

unfoldable pub flags_of : List Change → Snapshot → Flags
unfolding reason_of
flags_of changes new = record {
  indexable_flipped = has_field "indexable" changes;
  status_regressed =
      has_field "http_status" changes && (ltb new.http_status 200 || leb 400 new.http_status);
  indexability_reason = reason_of "" changes;
}

abbrev pub is_triad : String → Bool
is_triad f = str_eq f "meta_robots" || str_eq f "x_robots_tag" || str_eq f "indexability_reason"

abbrev pub is_gone_field : String → Bool
is_gone_field f = str_eq f "indexable" || str_eq f "canonical"

abbrev same_verdict : Change → Bool
same_verdict c =
    let before = is_noindex (codes c.old_value) in
    let after = is_noindex (codes c.new_value) in if before then after else not after

-- The tests that skip a change.
unfoldable pub change_is_silent : Flags → Change → Bool
change_is_silent fl c =
    is_cosmetic c.change_class
    || str_eq c.field "internal_link_count"
    || str_eq c.field "redirect_chain"
    || str_eq c.field "render_mode"
    || (fl.indexable_flipped && is_triad c.field)
    || (fl.status_regressed && is_gone_field c.field)
    || ((str_eq c.field "meta_robots" || str_eq c.field "x_robots_tag") && same_verdict c)

abbrev change_before : Change → String
change_before c = if str_eq c.field "content" then "" else c.old_value

abbrev change_after : Flags → Change → String
change_after fl c =
    if str_eq c.field "content"
    then "main content changed (substantive)"
    else if str_eq c.field "indexable" && not (str_eq fl.indexability_reason "")
    then c.new_value <> " (reason: " <> fl.indexability_reason <> ")"
    else c.new_value

abbrev pub page_event : Seams → Page → String → Severity → String → String → Event
page_event s page change_type severity before after = record {
  site_id = page.site_id;
  site = page.base_url;
  url = page.url;
  url_id = page.url_id;
  change_type = change_type;
  severity = severity;
  before = before;
  after = after;
  operational = false;
  deep_link = page.url;
  segments = segments_for_url s page;
}

abbrev pub change_event : Seams → Page → Snapshot → Flags → Change → Event
change_event s page new fl c =
    page_event s page c.field (severity_for_field c.field) (change_before c)
      (enrich_http_status s c.field new.http_status page (change_after fl c))

abbrev pub is_info : Severity → Bool
is_info info = true
is_info _ = false

-- `overflowSourceField`
abbrev pub overflow_source : String → Option String
overflow_source f =
    if str_eq f "title_pixel_overflow"
    then some "title"
    else if str_eq f "meta_description_pixel_overflow"
    then some "meta_description"
    else none

abbrev pub source_unchanged : List Change → Option String → Bool
source_unchanged changes none = false
source_unchanged changes (some f) = not (has_field f changes)

-- The tests that skip a newly opened finding, given the types that were sent already.
unfoldable pub finding_is_silent : Flags → List Change → Bool → List String → NewFinding → Bool
unfolding contains_string
finding_is_silent fl changes first_crawl types f =
    is_info f.severity
    || (first_crawl && not (str_eq f.field "http_status"))
    || contains_string types f.field
    || (fl.indexable_flipped && is_triad f.field)
    || (fl.status_regressed && is_gone_field f.field)
    || source_unchanged changes (overflow_source f.field)

abbrev pub finding_event : Seams → Page → Snapshot → NewFinding → Event
finding_event s page new f =
    page_event s page f.field f.severity ""
      (enrich_http_status s f.field new.http_status page f.detail)
