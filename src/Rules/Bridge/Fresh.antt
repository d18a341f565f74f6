-- ===== src/Rules/Bridge/Fresh.antt =====
-- A crawl reports exactly the findings that it newly opened.
use mathlib.Core.Path.{subst}
use rabbot_seo.Base.{
  ℕ, ◌≡◌, refl, ap, ◌∙◌, String, Bool, true, false, not, ◌&&◌, Option, none, some, List, [], ◌∷◌,
  map, arith, eq_iff, keep,
}
use rabbot_seo.Base.Result.{Result, ok, err}
use rabbot_seo.Model.{Severity, Issue, is_open_issue}
use rabbot_seo.Store.Issues.{StoreError, find_issue, list_issues}
use rabbot_seo.Store.Issues.Keys.{UniqueKeys}
use rabbot_seo.Rules.Engine.{
  Finding, Rule, Store, attempt, by_rule, by_url, apply, open_or_ignored, prior_is,
}
use rabbot_seo.Rules.Engine.Listing.{those, by_rule-list_open}
use rabbot_seo.Rules.Engine.Outcome.{IsRuleSet, state, verdict, outcome, apply_outcome}
use rabbot_seo.Rules.Bridge.{
  NewFinding, new_finding, was_open, new_findings, list_open, report, evaluate, apply_rules,
}

abbrev pub is_some {ℓ} : {A : Type ℓ} → Option A → Bool
is_some none = false
is_some (some a) = true

abbrev pub fails : Option Finding → Bool
fails none = false
fails (some f) = f.failed

abbrev pub fresh : List Issue → List Issue → List Issue
fresh before = keep (λ i. not (was_open i.rule_id before))

new_findings-fresh :
    (before after : List Issue) → new_findings before after ≡ map new_finding (fresh before after)
unfolding new_findings
new_findings-fresh before [] = refl
new_findings-fresh before (i ∷ rows) = ground (arith, new_findings-fresh before rows)

was_open-by_rule : (x : String) (rows : List Issue) → was_open x rows ≡ is_some (by_rule x rows)
unfolding was_open by_rule
was_open-by_rule x [] = refl
was_open-by_rule x (i ∷ rows) = ground (arith, was_open-by_rule x rows)

by_rule-fresh :
    (x : String) (before after : List Issue)
    → is_some (by_rule x (fresh before after))
      ≡ (not (was_open x before) && is_some (by_rule x after))
unfolding by_rule
by_rule-fresh x before [] = ground arith
by_rule-fresh x before (i ∷ rows) = ground (arith, by_rule-fresh x before rows, eq_iff i.rule_id x)

-- A passing rule, or one with an open or ignored issue, leaves nothing newly open.
opens_iff :
    (now : ℕ) (f : Option Finding) (before after : Option Issue)
    → state after ≡ outcome now f (state before)
    → (not (is_some (those (λ r. is_open_issue r.status) before))
        && is_some (those (λ r. is_open_issue r.status) after))
      ≡ (fails f && not (prior_is open_or_ignored before))
opens_iff now none none none h = ground arith
opens_iff now none none (some a) h = cc
opens_iff now none (some b) none h = cc
opens_iff now none (some b) (some a) h = ground arith
opens_iff now (some f) none none h = ground arith
opens_iff now (some f) none (some a) h = ground arith
opens_iff now (some f) (some b) none h = ground arith
opens_iff now (some f) (some b) (some a) h = ground arith

list_open-quiet :
    (url : ℕ) (s : Store)
    → s.faults ≡ []
    → list_open url s ≡ (ok (list_issues (by_url url true) s.db), s)
unfolding list_open attempt
list_open-quiet url s q =
    let still : record s { faults = [] } ≡ s = rw (← q) refl in
    subst (λ t. list_open url t ≡ (ok (list_issues (by_url url true) t.db), t)) still refl

report-quiet :
    (url : ℕ) (before : List Issue) (s : Store)
    → s.faults ≡ []
    → report url before s ≡ (ok (new_findings before (list_issues (by_url url true) s.db)), s)
unfolding report
report-quiet url before s q =
    ap (λ p. elim p.0 [ ok after ↦ (ok (new_findings before after), p.1) | err e ↦ (err e, p.1) ])
      (list_open-quiet url s q)

module _ {C : Type 0} (url : ℕ) (impact : Severity → ℕ) (now : ℕ) (ec : C) (rules : List (Rule C))
    (s : Store) where
  abbrev pub applied : Store
  applied = (apply rules url impact now ec s).1

  abbrev pub reported : List Issue
  reported = fresh (list_issues (by_url url true) s.db) (list_issues (by_url url true) applied.db)

  evaluate-quiet :
      (before : List Issue)
      → (apply rules url impact now ec s).0 ≡ ok tt
      → evaluate rules url impact now ec before s ≡ report url before applied
  unfolding evaluate
  evaluate-quiet before done =
      ap
        (λ r. elim r as (λ _. Result StoreError (List NewFinding) × Store) [
          | ok u ↦ report url before applied
          | err e ↦ (err e, applied)
        ])
        done

  apply_rules-reported :
      s.faults ≡ []
      → (apply rules url impact now ec s).0 ≡ ok tt
      → applied.faults ≡ []
      → (apply_rules rules url impact now ec s).0 ≡ ok (map new_finding reported)
  unfolding apply_rules
  apply_rules-reported q done calm =
      let before = list_issues (by_url url true) s.db in
      let after = list_issues (by_url url true) applied.db in
      ap
        (λ p.
          (elim p.0 as (λ _. Result StoreError (List NewFinding) × Store) [
            | ok b ↦ evaluate rules url impact now ec b p.1
            | err e ↦ (err e, p.1)
          ]).0)
        (list_open-quiet url s q)
      ∙ ap (λ p. p.0) (evaluate-quiet before done ∙ report-quiet url before applied calm)
      ∙ ap ok (new_findings-fresh before after)

  -- In a quiet store with one row for each key, for rules with distinct ids: `ApplyRules` succeeds
  -- and reports, under their bridged fields, issues of exactly these rules: those that fail and whose
  -- issue was neither open nor ignored before. An open finding alerts once, when it opens.
  pub reports_newly_opened :
      s.faults ≡ []
      → UniqueKeys s.db.issues
      → IsRuleSet ec rules
      → ((apply_rules rules url impact now ec s).0 ≡ ok (map new_finding reported))
        × ((x : String)
            → is_some (by_rule x reported) ≡ (
                fails (verdict ec x rules)
                && not (prior_is open_or_ignored (find_issue url x s.db.issues))))
  reports_newly_opened q v d =
      let (done, (calm, unique, mine, others)) = apply_outcome url impact now ec rules s q v d in
      (
        apply_rules-reported q done calm,
        λ x.
            by_rule-fresh x (list_issues (by_url url true) s.db)
              (list_issues (by_url url true) applied.db)
            ∙ rw
                (
                  was_open-by_rule x (list_issues (by_url url true) s.db),
                  by_rule-list_open url x s.db v,
                  by_rule-list_open url x applied.db unique,
                )
                (opens_iff now (verdict ec x rules) (find_issue url x s.db.issues)
                  (find_issue url x applied.db.issues) (mine x)),
      )
