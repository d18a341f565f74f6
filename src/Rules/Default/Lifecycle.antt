-- ===== src/Rules/Default/Lifecycle.antt =====
-- The issues that the default rules open and close.
use rabbot_seo.Base.{
  ℕ, ◌≡◌, refl, ◌∙◌, Option, true, ◌||◌, List, [], ◌∷◌, some, arith, leb, ◌==◌, if◌then◌else◌,
}
use rabbot_seo.Model.{Severity, IssueStatus}
use rabbot_seo.Store.Issues.{find_issue}
use rabbot_seo.Store.Issues.Keys.{UniqueKeys}
use rabbot_seo.Rules.Engine.{Rule, Store, apply}
use rabbot_seo.Rules.Engine.Outcome.{IsRuleSet, state, outcome, raised, passed, apply_outcome}
use rabbot_seo.Rules.Default.{
  EvalContext, default_rules, status_regression, indexability_flip, meta_robots_noindex,
  canonical_changed, title_changed, meta_description_changed, h1_issue, broken_links_spike,
  hreflang_invalid, external_link_spike, image_alt_regression, image_alt_missing,
  redirect_chain_growth, redirect_loop, needs_rendering,
}

rule_id-status_regression : (c : EvalContext) → (status_regression c).rule_id ≡ "status_regression"
unfolding status_regression
rule_id-status_regression c = ground arith

rule_id-indexability_flip : (c : EvalContext) → (indexability_flip c).rule_id ≡ "indexability_flip"
unfolding indexability_flip
rule_id-indexability_flip c = ground arith

rule_id-meta_robots_noindex :
    (c : EvalContext) → (meta_robots_noindex c).rule_id ≡ "meta_robots_noindex"
unfolding meta_robots_noindex
rule_id-meta_robots_noindex c = ground arith

rule_id-canonical_changed : (c : EvalContext) → (canonical_changed c).rule_id ≡ "canonical_changed"
unfolding canonical_changed
rule_id-canonical_changed c = ground arith

rule_id-title_changed : (c : EvalContext) → (title_changed c).rule_id ≡ "title_changed"
unfolding title_changed
rule_id-title_changed c = ground arith

rule_id-meta_description_changed :
    (c : EvalContext) → (meta_description_changed c).rule_id ≡ "meta_description_changed"
unfolding meta_description_changed
rule_id-meta_description_changed c = ground arith

rule_id-h1_issue : (c : EvalContext) → (h1_issue c).rule_id ≡ "h1_issue"
unfolding h1_issue
rule_id-h1_issue c = ground arith

rule_id-broken_links_spike :
    (c : EvalContext) → (broken_links_spike c).rule_id ≡ "broken_links_spike"
unfolding broken_links_spike
rule_id-broken_links_spike c = ground arith

rule_id-hreflang_invalid : (c : EvalContext) → (hreflang_invalid c).rule_id ≡ "hreflang_invalid"
unfolding hreflang_invalid
rule_id-hreflang_invalid c = ground arith

rule_id-external_link_spike :
    (c : EvalContext) → (external_link_spike c).rule_id ≡ "external_link_spike"
unfolding external_link_spike
rule_id-external_link_spike c = ground arith

rule_id-image_alt_regression :
    (c : EvalContext) → (image_alt_regression c).rule_id ≡ "image_alt_regression"
unfolding image_alt_regression
rule_id-image_alt_regression c = ground arith

rule_id-image_alt_missing : (c : EvalContext) → (image_alt_missing c).rule_id ≡ "image_alt_missing"
unfolding image_alt_missing
rule_id-image_alt_missing c = ground arith

rule_id-redirect_chain_growth :
    (c : EvalContext) → (redirect_chain_growth c).rule_id ≡ "redirect_chain_growth"
unfolding redirect_chain_growth
rule_id-redirect_chain_growth c = ground arith

rule_id-redirect_loop : (c : EvalContext) → (redirect_loop c).rule_id ≡ "redirect_loop"
unfolding redirect_loop
rule_id-redirect_loop c = ground arith

rule_id-needs_rendering : (c : EvalContext) → (needs_rendering c).rule_id ≡ "needs_rendering"
unfolding needs_rendering
rule_id-needs_rendering c = ground arith

-- The default rules have distinct ids and each finding carries its rule's id.
pub default_rules-IsRuleSet : (c : EvalContext) → IsRuleSet c default_rules
unfolding default_rules
default_rules-IsRuleSet c = (
  refl,
  rule_id-status_regression c,
  (
    refl,
    rule_id-indexability_flip c,
    (
      refl,
      rule_id-meta_robots_noindex c,
      (
        refl,
        rule_id-canonical_changed c,
        (
          refl,
          rule_id-title_changed c,
          (
            refl,
            rule_id-meta_description_changed c,
            (
              refl,
              rule_id-h1_issue c,
              (
                refl,
                rule_id-broken_links_spike c,
                (
                  refl,
                  rule_id-hreflang_invalid c,
                  (
                    refl,
                    rule_id-external_link_spike c,
                    (
                      refl,
                      rule_id-image_alt_regression c,
                      (
                        refl,
                        rule_id-image_alt_missing c,
                        (
                          refl,
                          rule_id-redirect_chain_growth c,
                          (refl, rule_id-redirect_loop c, (refl, rule_id-needs_rendering c, tt)),
                        ),
                      ),
                    ),
                  ),
                ),
              ),
            ),
          ),
        ),
      ),
    ),
  ),
)

outcome-status :
    (c : EvalContext) (now : ℕ) (o : Option (IssueStatus × ℕ))
    → ((c.old.id == 0) || leb 200 c.old.http_status) ≡ true
    → outcome now (some (status_regression c)) o
      ≡ (if leb 400 c.new.http_status then raised now o else passed o)
unfolding status_regression
outcome-status c now o h = ground arith

abbrev pub status_rule : Rule EvalContext
status_rule = record { id = "status_regression"; eval = status_regression }

-- In a quiet store with one row for each key, for a rule set that begins with the status rule and a page
-- whose snapshot before, if any, had a status of at least 200: a run of the engine raises the issue of
-- the page's status (an open one stays open with its time, an ignored one stays ignored, any other opens
-- now) if the status is at least 400, and closes it if it is open otherwise.
pub status_issue_follows :
    (url : ℕ) (impact : Severity → ℕ) (now : ℕ) (c : EvalContext) (rest : List (Rule EvalContext))
    (s : Store)
    → s.faults ≡ []
    → UniqueKeys s.db.issues
    → IsRuleSet c (status_rule ∷ rest)
    → ((c.old.id == 0) || leb 200 c.old.http_status) ≡ true
    → state (
        find_issue url "status_regression"
          (apply (status_rule ∷ rest) url impact now c s).1.db.issues)
      ≡ (if leb 400 c.new.http_status
          then raised now (state (find_issue url "status_regression" s.db.issues))
          else passed (state (find_issue url "status_regression" s.db.issues)))
status_issue_follows url impact now c rest s q v d h =
    let (ends, (quiet, unique, mine, others)) =
      apply_outcome url impact now c (status_rule ∷ rest) s q v d in
    mine "status_regression"
    ∙ outcome-status c now (state (find_issue url "status_regression" s.db.issues)) h
