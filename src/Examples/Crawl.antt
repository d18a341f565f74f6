-- ===== src/Examples/Crawl.antt =====
-- The theorems on what a fetch sends, when a page is checked again, and how snapshots compare.
use rabbot_seo.Base.{ℕ, ◌≤◌, ◌≡◌, refl, String, Bool, true, false, none, some, List, [], ◌∷◌, arith}
use rabbot_seo.Base.Result.{ok, err}
use rabbot_seo.Model
use rabbot_seo.Model.{Severity, critical, warning, info}
use rabbot_seo.Diff.{Snapshot, Change, change, substantive, compare}
use rabbot_seo.Diff.Fields
use rabbot_seo.Diff.Fields.{DistinctFields, values_of}
use rabbot_seo.Alerts.Event.{Event}
use rabbot_seo.Rules.Bridge.{NewFinding}
use rabbot_seo.Scheduler.Interval.{absent, reschedule}
use rabbot_seo.Scheduler.Interval.Bounds
use rabbot_seo.Scheduler.Interval.Bounds.{stable, volatile}
use rabbot_seo.Scheduler.Process.{Page, ProcessorDeps, Seams, flags_of}
use rabbot_seo.Scheduler.Process.Flow.{ingest_changes, bridge_findings}
use rabbot_seo.Scheduler.Process.Select
use rabbot_seo.Scheduler.Process.Select.{emitted, send_all}
use rabbot_seo.Scheduler.Process.Emitted
use rabbot_seo.Scheduler.Process.Emitted.{DistinctTypes, has_type}

abbrev snapshot : ℕ → ℕ → Bool → String → Snapshot
snapshot i status indexable title = record {
  id = i;
  url_id = 7;
  http_status = status;
  redirect_chain = "[]";
  title = title;
  meta_description = "";
  meta_robots = "";
  x_robots_tag = "";
  canonical = "";
  hreflang = "";
  headings = "";
  word_count = 10;
  content_sha256 = "aa";
  content_simhash = 1;
  schema_types = "";
  internal_link_count = 3;
  external_link_count = 0;
  image_count = 0;
  missing_alt_count = 0;
  indexable = indexable;
  indexability_reason = "";
  render_mode = "server_rendered";
}

abbrev before : Snapshot
before = snapshot 1 200 true "Shoes"

abbrev after : Snapshot
after = snapshot 2 500 false "Error"

abbrev page : Page
page = record {
  site_id = 1;
  base_url = "https://a.example";
  url_id = 7;
  url = "https://a.example/x";
}

abbrev seams : Seams
seams = record { segments_for = none; blast_radius = none; decode_chain = λ c. none }

abbrev findings : List NewFinding
findings = record { field = "http_status"; severity = critical; detail = "{}" } ∷ []

-- The pipeline of this example keeps what it is sent, and fails on the first event.
abbrev deps : ProcessorDeps (List Event) String
deps = record {
  record_changes = λ cs w. (ok tt, w);
  apply_rules = λ p new old cs t w. (ok findings, w);
  handle_fetch_class = λ ac w. (ok false, w);
  ingest_event = λ e w. elim w [ [] ↦ (err "busy", e ∷ []) | x ∷ xs ↦ (ok tt, e ∷ x ∷ xs) ];
  resolve_event = λ e w. (ok tt, w);
  record_health_score = λ site url w. (ok tt, w);
}

abbrev gone : List Change
gone =
    change 9 after "indexable" "true" "false" substantive
    ∷ change 9 after "http_status" "200" "500" substantive
    ∷ []

gone-DistinctFields : DistinctFields gone
gone-DistinctFields = (refl, (refl, tt))

emitted-DistinctTypes_example : DistinctTypes (emitted seams page after before gone findings)
emitted-DistinctTypes_example =
    Emitted.emitted-DistinctTypes seams page after before gone findings gone-DistinctFields

loops-send_all_example :
    bridge_findings deps seams page after (flags_of gone after) gone false findings (
      ingest_changes deps seams page after
        (flags_of gone after)
        gone
        (record { types = []; errors = [] }, []))
    ≡ send_all deps
        (emitted seams page after before gone findings)
        (record { types = []; errors = [] }, [])
loops-send_all_example = Select.loops-send_all deps seams page after before gone findings []

reschedule_bounds_example :
    let next = (reschedule 600 false 300 86400 Model.ok 503 absent 1000).0 in
    (300 ≤ next) × (next ≤ 86400)
reschedule_bounds_example =
    Bounds.reschedule_bounds 600 300 86400 false Model.ok 503 absent 1000 (omega arith)

stable_reaches_max_example : stable 86400 300 86400 600 ≡ 86400
stable_reaches_max_example =
    Bounds.stable_reaches_max 86400 300 86400 600 (omega arith) (omega arith) (omega arith)
      (omega arith)

compare-due_example :
    values_of "title" (compare after before 4 9) ≡ some (before.title, after.title)
compare-due_example = Fields.compare-due after before 4 9 "title"
