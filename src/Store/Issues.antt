-- ===== src/Store/Issues.antt =====
-- internal/store/issues.go: the issues table, with the tables of urls and segments that its
-- listing joins. The rows stand in no order that the code may rely on.
pub mod Keys
use rabbot_seo.Base.{
  ℕ, suc, String, Bool, true, false, ◌&&◌, Option, none, some, List, [], ◌∷◌, ltb, ◌==◌,
  if◌then◌else◌, keep, str_eq,
}
use rabbot_seo.Base.Result.{Result, ok, err}
use rabbot_seo.Model.{
  Severity, severity_eq, Issue, IssueStatus, open_issue, closed_issue, ignored_issue, status_eq,
  is_open_issue, is_closed_issue,
}

pub record IssueDb : Type 0 where
  pub issues : List Issue
  pub next_id : ℕ
  pub url_sites : List (ℕ × ℕ)
  pub url_segments : List (ℕ × String)

pub record IssueFilter : Type 0 where
  pub open_only : Bool
  pub status : Option IssueStatus
  pub site_id : Option ℕ
  pub url_id : Option ℕ
  pub severity : Option Severity
  pub segment : Option String

pub data StoreError : Type 0 where
  store_failed not_found : StoreError

-- `UNIQUE(url_id, rule_id)`
unfoldable pub has_key : ℕ → String → Issue → Bool
has_key url rule r = (r.url_id == url) && str_eq r.rule_id rule

unfoldable pub find_issue : ℕ → String → List Issue → Option Issue
unfolding has_key
find_issue url rule [] = none
find_issue url rule (r ∷ rows) = if has_key url rule r then some r else find_issue url rule rows

unfoldable pub detail_or_empty : String → String
detail_or_empty d = if str_eq d "" then "{}" else d

-- `ON CONFLICT(url_id, rule_id) DO UPDATE SET …`, from `iss` into the row `r`.
abbrev pub merged : Issue → Issue → Issue
merged iss r = record r {
  status = iss.status;
  severity = iss.severity;
  impact_points = iss.impact_points;
  opened_at = if is_closed_issue r.status then iss.opened_at else r.opened_at;
  closed_at = iss.closed_at;
  last_seen_at = iss.last_seen_at;
  detail = detail_or_empty iss.detail;
}

abbrev pub inserted : ℕ → Issue → Issue
inserted i iss = record iss { id = i; detail = detail_or_empty iss.detail }

unfoldable pub upsert_row : ℕ → Issue → List Issue → List Issue
unfolding has_key
upsert_row i iss [] = inserted i iss ∷ []
upsert_row i iss (r ∷ rows) =
    if has_key iss.url_id iss.rule_id r then merged iss r ∷ rows else r ∷ upsert_row i iss rows

unfoldable pub upsert_issue : Issue → IssueDb → ℕ × IssueDb
unfolding upsert_row find_issue
upsert_issue iss db = elim (find_issue iss.url_id iss.rule_id db.issues) [
  | none ↦ (
    db.next_id,
    record db { issues = upsert_row db.next_id iss db.issues; next_id = suc db.next_id },
  )
  | some r ↦ (r.id, record db { issues = upsert_row db.next_id iss db.issues })
]

abbrev pub closed : ℕ → Issue → Issue
closed at r = record r { status = closed_issue; closed_at = some at; last_seen_at = at }

-- The update's WHERE clause wants an open row.
unfoldable pub close_row : ℕ → String → ℕ → List Issue → List Issue
unfolding has_key
close_row url rule at [] = []
close_row url rule at (r ∷ rows) =
    (if has_key url rule r && is_open_issue r.status then closed at r else r)
    ∷ close_row url rule at rows

unfoldable pub close_issue : ℕ → String → ℕ → IssueDb → IssueDb
unfolding close_row
close_issue url rule at db = record db { issues = close_row url rule at db.issues }

unfoldable pub has_id : ℕ → List Issue → Bool
has_id i [] = false
has_id i (r ∷ rows) = if r.id == i then true else has_id i rows

unfoldable pub ignore_row : ℕ → List Issue → List Issue
ignore_row i [] = []
ignore_row i (r ∷ rows) =
    (if r.id == i then record r { status = ignored_issue } else r) ∷ ignore_row i rows

unfoldable pub ignore_issue : ℕ → IssueDb → Result StoreError IssueDb
unfolding has_id ignore_row
ignore_issue i db =
    if has_id i db.issues then ok (record db { issues = ignore_row i db.issues }) else err not_found

-- The joins with urls and with url_segments.
pub joins_site : ℕ → ℕ → List (ℕ × ℕ) → Bool
joins_site url site [] = false
joins_site url site ((u, s) ∷ rows) =
    if (u == url) && (s == site) then true else joins_site url site rows

pub joins_segment : ℕ → String → List (ℕ × String) → Bool
joins_segment url name [] = false
joins_segment url name ((u, s) ∷ rows) =
    if (u == url) && str_eq s name then true else joins_segment url name rows

abbrev wants {ℓ} : {A : Type ℓ} → (A → Bool) → Option A → Bool
wants p none = true
wants p (some a) = p a

unfoldable pub selects : IssueFilter → IssueDb → Issue → Bool
unfolding joins_site joins_segment
selects f db r =
    wants (λ s. joins_site r.url_id s db.url_sites) f.site_id
    && wants (λ n. joins_segment r.url_id n db.url_segments) f.segment
    && wants (λ u. r.url_id == u) f.url_id
    && wants (λ s. severity_eq r.severity s) f.severity
    && (if f.open_only then is_open_issue r.status else wants (λ s. status_eq r.status s) f.status)

-- `ORDER BY impact_points DESC, opened_at DESC`
abbrev before : Issue → Issue → Bool
before a b =
    if ltb b.impact_points a.impact_points
    then true
    else (a.impact_points == b.impact_points) && ltb b.opened_at a.opened_at

unfoldable pub insert_by_impact : Issue → List Issue → List Issue
insert_by_impact a [] = a ∷ []
insert_by_impact a (b ∷ bs) = if before b a then b ∷ insert_by_impact a bs else a ∷ b ∷ bs

unfoldable pub order_by_impact : List Issue → List Issue
unfolding insert_by_impact
order_by_impact [] = []
order_by_impact (a ∷ rows) = insert_by_impact a (order_by_impact rows)

unfoldable pub list_issues : IssueFilter → IssueDb → List Issue
unfolding order_by_impact selects
list_issues f db = order_by_impact (keep (selects f db) db.issues)
