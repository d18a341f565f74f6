-- ===== src/Rules/Engine/Listing.antt =====
-- What the engine reads of a page's issues is what the table holds, in whatever order they are listed.
use rabbot_seo.Base.{
  ℕ, ◌≡◌, refl, ◌∙◌, String, Bool, true, false, ◌&&◌, Option, none, some, List, [], ◌∷◌, ◌==◌,
  if◌then◌else◌, arith, str_eq, eq_iff, Option-cases, Bool-cases, inl, inr, keep,
}
use rabbot_seo.Model.{Issue, is_open_issue}
use rabbot_seo.Store.Issues.{
  IssueDb, has_key, find_issue, insert_by_impact, order_by_impact, list_issues, selects,
}
use rabbot_seo.Store.Issues.Keys.{UniqueKeys}
use rabbot_seo.Rules.Engine.{by_rule, by_url}

abbrev pub those : (Issue → Bool) → Option Issue → Option Issue
those q none = none
those q (some r) = if q r then some r else none

by_rule-insert :
    (x : String) (i : Issue) (rows : List Issue)
    → by_rule i.rule_id rows ≡ none
    → by_rule x (insert_by_impact i rows) ≡ (if str_eq i.rule_id x then some i else by_rule x rows)
unfolding by_rule insert_by_impact
by_rule-insert x i [] h = refl
by_rule-insert x i (b ∷ bs) h = elim (Option-cases (by_rule i.rule_id bs)) [
  | inl e ↦ ground (
    arith,
    by_rule-insert x i bs e,
    eq_iff i.rule_id x,
    eq_iff b.rule_id x,
    eq_iff b.rule_id i.rule_id,
  )
  | inr (j, e) ↦ ground arith
]

-- No row behind one with the key has it.
alone :
    (u : ℕ) (x : String) (r : Issue) (rows : List Issue)
    → find_issue r.url_id r.rule_id rows ≡ none
    → has_key u x r ≡ true
    → find_issue u x rows ≡ none
unfolding has_key
alone u x r rows h k =
    let at_url : r.url_id ≡ u = ground arith in
    let at_rule : r.rule_id ≡ x = ground (arith, eq_iff r.rule_id x) in rw (← at_url, ← at_rule) h

module _ (u : ℕ) (q p : Issue → Bool) (both : (r : Issue) → p r ≡ ((r.url_id == u) && q r)) where
  by_rule-listed :
      (x : String) (rows : List Issue)
      → UniqueKeys rows
      → by_rule x (order_by_impact (keep p rows)) ≡ those q (find_issue u x rows)
  unfolding by_rule order_by_impact find_issue has_key
  by_rule-listed x [] v = refl
  by_rule-listed x (r ∷ rows) v = elim (Bool-cases (p r)) [
    | inr out ↦ rw out (ground (arith, both r, by_rule-listed x rows v.1, alone u x r rows v.0))
    | inl taken ↦
        let at : r.url_id ≡ u = ground (arith, both r) in
        rw taken (
          ground (
            arith,
            at,
            both r,
            by_rule-listed x rows v.1,
            by_rule-listed r.rule_id rows v.1,
            by_rule-insert x r (order_by_impact (keep p rows)),
            eq_iff r.rule_id x,
            alone u x r rows v.0,
          ))
  ]

pub by_rule-list_issues :
    (u : ℕ) (x : String) (db : IssueDb)
    → UniqueKeys db.issues
    → by_rule x (list_issues (by_url u false) db) ≡ find_issue u x db.issues
unfolding list_issues selects
by_rule-list_issues u x db v =
    by_rule-listed u (λ r. true) (selects (by_url u false) db) (λ r. ground arith) x db.issues v
    ∙ ground arith

pub by_rule-list_open :
    (u : ℕ) (x : String) (db : IssueDb)
    → UniqueKeys db.issues
    → by_rule x (list_issues (by_url u true) db)
      ≡ those (λ r. is_open_issue r.status) (find_issue u x db.issues)
unfolding list_issues selects
by_rule-list_open u x db v =
    by_rule-listed u (λ r. is_open_issue r.status) (selects (by_url u true) db) (λ r. ground arith)
      x db.issues v
