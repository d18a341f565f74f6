-- ===== src/Examples/Rules.antt =====
-- The rule engine's theorems on a page with three issues and two rules.
use rabbot_seo.Base.{ℕ, ◌≡◌, refl, String, not, ◌&&◌, none, List, [], ◌∷◌, map, ltb}
use rabbot_seo.Base.Result.{ok}
use rabbot_seo.Model.{
  Severity, critical, warning, info, Issue, IssueStatus, open_issue, ignored_issue,
}
use rabbot_seo.Store.Issues.{find_issue}
use rabbot_seo.Store.Issues.Keys.{UniqueKeys}
use rabbot_seo.Rules.Engine.{Rule, Store, by_rule, apply, open_or_ignored, prior_is}
use rabbot_seo.Rules.Engine.Outcome
use rabbot_seo.Rules.Engine.Outcome.{IsRuleSet, Settled, state, verdict}
use rabbot_seo.Rules.Bridge.{apply_rules, new_finding}
use rabbot_seo.Rules.Bridge.Fresh
use rabbot_seo.Rules.Bridge.Fresh.{is_some, fails, reported}

-- A page is its word count here.
abbrev thin : Rule ℕ
thin = record {
  id = "thin";
  eval = λ n. record { rule_id = "thin"; failed = ltb n 100; severity = warning; detail = "" };
}

abbrev empty_page : Rule ℕ
empty_page = record {
  id = "empty";
  eval = λ n. record { rule_id = "empty"; failed = ltb n 1; severity = critical; detail = "" };
}

abbrev rules : List (Rule ℕ)
rules = thin ∷ empty_page ∷ []

abbrev issue : ℕ → ℕ → String → IssueStatus → Issue
issue i url rule status = record {
  id = i;
  url_id = url;
  rule_id = rule;
  status = status;
  severity = warning;
  impact_points = 250;
  opened_at = 5;
  closed_at = none;
  last_seen_at = 5;
  detail = "{}";
}

abbrev store : Store
store = record {
  db = record {
    issues = issue 1 7 "thin" ignored_issue ∷ issue 2 8 "thin" open_issue ∷ [];
    next_id = 3;
    url_sites = [];
    url_segments = [];
  };
  faults = [];
}

abbrev points : Severity → ℕ
points critical = 1000
points warning = 500
points info = 200

store-UniqueKeys : UniqueKeys store.db.issues
unfolding find_issue
store-UniqueKeys = (refl, (refl, tt))

rules-IsRuleSet : (n : ℕ) → IsRuleSet n rules
rules-IsRuleSet n = (refl, refl, (refl, refl, tt))

apply_outcome_example :
    ((apply rules 7 points 10 0 store).0 ≡ ok tt)
    × Settled 7 points 10 0 rules store.db.issues (apply rules 7 points 10 0 store).1
apply_outcome_example =
    Outcome.apply_outcome 7 points 10 0 rules store refl store-UniqueKeys (rules-IsRuleSet 0)

reports_newly_opened_example :
    ((apply_rules rules 7 points 10 0 store).0
      ≡ ok (map new_finding (reported 7 points 10 0 rules store)))
    × ((x : String)
        → is_some (by_rule x (reported 7 points 10 0 rules store)) ≡ (
            fails (verdict 0 x rules)
            && not (prior_is open_or_ignored (find_issue 7 x store.db.issues))))
reports_newly_opened_example =
    Fresh.reports_newly_opened 7 points 10 0 rules store refl store-UniqueKeys (rules-IsRuleSet 0)
