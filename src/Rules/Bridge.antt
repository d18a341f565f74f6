-- ===== src/Rules/Bridge.antt =====
-- `ApplyRules` of internal/supervisor/wiring.go, and internal/scheduler/rules_bridge.go: the
-- findings that a crawl newly opened, under the names of the fields that they alert on.
pub mod Fresh
use rabbot_seo.Base.{
  ℕ, String, Bool, true, false, Option, none, some, List, [], ◌∷◌, if◌then◌else◌, str_eq,
}
use rabbot_seo.Base.Result.{Result, ok, err}
use rabbot_seo.Model.{Severity, Issue}
use rabbot_seo.Store.Issues.{IssueDb, StoreError, list_issues}
use rabbot_seo.Rules.Engine.{Rule, Store, attempt, by_url, apply}

abbrev pub rule_field_for_bridge : List (String × String)
rule_field_for_bridge =
    ("status_regression", "http_status")
    ∷ ("indexability_flip", "indexable")
    ∷ ("meta_robots_noindex", "meta_robots")
    ∷ ("canonical_changed", "canonical")
    ∷ ("title_changed", "title")
    ∷ ("meta_description_changed", "meta_description")
    ∷ ("h1_issue", "headings")
    ∷ ("broken_links_spike", "internal_link_count")
    ∷ ("hreflang_invalid", "hreflang")
    ∷ ("external_link_spike", "external_link_count")
    ∷ ("image_alt_regression", "missing_alt_count")
    ∷ ("image_alt_missing", "missing_alt_count")
    ∷ ("redirect_chain_growth", "redirect_chain")
    ∷ ("needs_rendering", "render_mode")
    ∷ []

look_up : String → List (String × String) → Option String
look_up k [] = none
look_up k ((j, v) ∷ m) = if str_eq j k then some v else look_up k m

unfoldable pub bridge_field_for_rule : String → Option String
unfolding look_up
bridge_field_for_rule rule_id = look_up rule_id rule_field_for_bridge

pub record NewFinding : Type 0 where
  pub field : String
  pub severity : Severity
  pub detail : String

pub bridged_field : String → String
bridged_field rule_id = elim (bridge_field_for_rule rule_id) [ some field ↦ field | none ↦ rule_id ]

abbrev pub new_finding : Issue → NewFinding
new_finding i = record { field = bridged_field i.rule_id; severity = i.severity; detail = i.detail }

-- `wasOpen[ruleID]`
pub was_open : String → List Issue → Bool
was_open x [] = false
was_open x (i ∷ rows) = if str_eq i.rule_id x then true else was_open x rows

new_findings : List Issue → List Issue → List NewFinding
unfolding was_open
new_findings before [] = []
new_findings before (i ∷ rows) =
    let rest = new_findings before rows in
    if was_open i.rule_id before then rest else new_finding i ∷ rest

list_open : ℕ → Store → Result StoreError (List Issue) × Store
list_open url = attempt (λ db. (list_issues (by_url url true) db, db))

report : ℕ → List Issue → Store → Result StoreError (List NewFinding) × Store
unfolding list_open new_findings
report url before s =
    let (listed, s') = list_open url s in
    elim listed [ ok after ↦ (ok (new_findings before after), s') | err e ↦ (err e, s') ]

evaluate :
    {C : Type 0}
    → List (Rule C)
    → ℕ
    → (Severity → ℕ)
    → ℕ
    → C
    → List Issue
    → Store
    → Result StoreError (List NewFinding) × Store
unfolding report
evaluate rules url impact now ec before s =
    let (applied, s') = apply rules url impact now ec s in
    elim applied [ ok u ↦ report url before s' | err e ↦ (err e, s') ]

pub apply_rules :
    {C : Type 0}
    → List (Rule C)
    → ℕ
    → (Severity → ℕ)
    → ℕ
    → C
    → Store
    → Result StoreError (List NewFinding) × Store
unfolding list_open evaluate
apply_rules rules url impact now ec s =
    let (listed, s') = list_open url s in
    elim listed [ ok before ↦ evaluate rules url impact now ec before s' | err e ↦ (err e, s') ]
