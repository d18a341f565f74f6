-- ===== src/Rules/Engine.antt =====
-- internal/rules/engine.go and rules.go, and `ApplyRules` of internal/supervisor/wiring.go. The
-- evaluation context is a type `C` of the caller's. `ImpactPoints` computes in float64: its value for
-- the page's importance is an argument. `faults` says which coming database calls fail.
pub mod Listing
pub mod Outcome
use rabbot_seo.Base.{
  ℕ, String, Bool, true, false, Option, none, some, List, [], ◌∷◌, if◌then◌else◌, str_eq,
}
use rabbot_seo.Base.Result.{Result, ok, err}
use rabbot_seo.Model.{
  Severity, Issue, IssueStatus, open_issue, closed_issue, ignored_issue, is_open_issue,
  is_ignored_issue,
}
use rabbot_seo.Store.Issues.{
  IssueDb, IssueFilter, StoreError, store_failed, list_issues, upsert_issue, close_issue,
}

pub record Finding : Type 0 where
  pub rule_id : String
  pub failed : Bool
  pub severity : Severity
  pub detail : String

pub record Rule (C : Type 0) : Type 0 where
  pub id : String
  pub eval : C → Finding

pub record Store : Type 0 where
  pub db : IssueDb
  pub faults : List Bool

-- One call of the store: it fails and changes nothing, or it runs.
unfoldable pub attempt :
    {A : Type 0} → (IssueDb → A × IssueDb) → Store → Result StoreError A × Store
attempt f s = elim s.faults [
  | [] ↦ let (a, db) = f s.db in (ok a, record s { db = db })
  | true ∷ later ↦ (err store_failed, record s { faults = later })
  | false ∷ later ↦ let (a, db) = f s.db in (ok a, record { db = db; faults = later })
]

abbrev pub by_url : ℕ → Bool → IssueFilter
by_url u open_only = record {
  open_only = open_only;
  status = none;
  site_id = none;
  url_id = some u;
  severity = none;
  segment = none;
}

-- The map `byRule`: a later row replaces an earlier one.
unfoldable pub by_rule : String → List Issue → Option Issue
by_rule x [] = none
by_rule x (i ∷ rest) = elim (by_rule x rest) [
  | none ↦ if str_eq i.rule_id x then some i else none
  | some j ↦ some j
]

abbrev pub prior_is : (IssueStatus → Bool) → Option Issue → Bool
prior_is p none = false
prior_is p (some i) = p i.status

abbrev pub opened_at : ℕ → Option Issue → ℕ
opened_at now none = now
opened_at now (some i) = if is_open_issue i.status then i.opened_at else now

abbrev pub open_or_ignored : IssueStatus → Bool
open_or_ignored open_issue = true
open_or_ignored ignored_issue = true
open_or_ignored closed_issue = false

abbrev pub issue_of : ℕ → (Severity → ℕ) → ℕ → Finding → Option Issue → Issue
issue_of url impact now f prior = record {
  id = 0;
  url_id = url;
  rule_id = f.rule_id;
  status = open_issue;
  severity = f.severity;
  impact_points = impact f.severity;
  opened_at = opened_at now prior;
  closed_at = none;
  last_seen_at = now;
  detail = f.detail;
}

-- The body of the loop, for a rule with the given id, verdict and prior issue.
reconcile :
    ℕ
    → (Severity → ℕ)
    → ℕ
    → String
    → Finding
    → Option Issue
    → Store
    → Result StoreError (Unit {0}) × Store
unfolding attempt
reconcile url impact now id f prior s =
    if f.failed
    then if prior_is is_ignored_issue prior
      then (ok tt, s)
      else attempt (λ db. (tt, (upsert_issue (issue_of url impact now f prior) db).1)) s
    else if prior_is open_or_ignored prior
    then attempt (λ db. (tt, close_issue url id now db)) s
    else (ok tt, s)

-- The loop over the rules, with the issues as they were listed before it.
pub apply_rules :
    {C : Type 0}
    → ℕ
    → (Severity → ℕ)
    → ℕ
    → C
    → List Issue
    → List (Rule C)
    → Store
    → Result StoreError (Unit {0}) × Store
unfolding reconcile by_rule
apply_rules url impact now ec existing [] s = (ok tt, s)
apply_rules url impact now ec existing (r ∷ rs) s =
    let (done, s') = reconcile url impact now r.id (r.eval ec) (by_rule r.id existing) s in
    let rest = apply_rules url impact now ec existing rs s' in
    elim done [ ok u ↦ rest | err e ↦ (err e, s') ]

pub apply :
    {C : Type 0}
    → List (Rule C)
    → ℕ
    → (Severity → ℕ)
    → ℕ
    → C
    → Store
    → Result StoreError (Unit {0}) × Store
unfolding apply_rules attempt
apply rules url impact now ec s =
    let (listed, s') = attempt (λ db. (list_issues (by_url url false) db, db)) s in
    elim listed [
      | ok existing ↦ apply_rules url impact now ec existing rules s'
      | err e ↦ (err e, s')
    ]
