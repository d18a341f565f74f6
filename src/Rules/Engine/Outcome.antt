-- ===== src/Rules/Engine/Outcome.antt =====
-- What a run of the engine makes of each issue.
use mathlib.Core.Path.{subst}
use rabbot_seo.Base.{
  ℕ, ◌≡◌, ◌≢◌, refl, sym, ap, ◌∙◌, String, false, Option, none, some, List, [], ◌∷◌, if◌then◌else◌,
  arith, str_eq, eq_iff, eq_refl, Bool-cases, inl, inr,
}
use rabbot_seo.Base.Result.{ok, err}
use rabbot_seo.Model.{
  Severity, Issue, IssueStatus, open_issue, closed_issue, ignored_issue, is_ignored_issue,
}
use rabbot_seo.Store.Issues.{
  has_key, find_issue, upsert_issue, close_issue, upsert_row, close_row, list_issues,
}
use rabbot_seo.Store.Issues.Keys.{
  UniqueKeys, find_issue-upsert_row, UniqueKeys-upsert_row, find_issue-close_self,
  find_issue-close_ne, find_issue-close_other, UniqueKeys-close_row,
}
use rabbot_seo.Rules.Engine.{
  Finding, Rule, Store, attempt, by_rule, by_url, prior_is, issue_of, open_or_ignored, reconcile,
  apply_rules, apply,
}
use rabbot_seo.Rules.Engine.Listing.{by_rule-list_issues}

-- What the rule of an id says of the page, if there is such a rule.
abbrev pub verdict : {C : Type 0} → C → String → List (Rule C) → Option Finding
verdict ec x [] = none
verdict ec x (r ∷ rs) = if str_eq r.id x then some (r.eval ec) else verdict ec x rs

-- No two rules share an id, and each finding carries the id of its rule.
abbrev pub IsRuleSet : {C : Type 0} → C → List (Rule C) → Type 0
IsRuleSet ec [] = Unit
IsRuleSet ec (r ∷ rs) = (verdict ec r.id rs ≡ none) × ((r.eval ec).rule_id ≡ r.id) × IsRuleSet ec rs

-- The status of an issue and when it was opened.
abbrev pub state : Option Issue → Option (IssueStatus × ℕ)
state none = none
state (some i) = some (i.status, i.opened_at)

-- What a failing rule makes of an issue: an ignored one and an open one stay as they are, any other
-- opens now.
abbrev pub raised : ℕ → Option (IssueStatus × ℕ) → Option (IssueStatus × ℕ)
raised now (some (ignored_issue, t)) = some (ignored_issue, t)
raised now (some (open_issue, t)) = some (open_issue, t)
raised now _ = some (open_issue, now)

-- What a passing rule makes of it: an open one closes, any other stays.
abbrev pub passed : Option (IssueStatus × ℕ) → Option (IssueStatus × ℕ)
passed (some (open_issue, t)) = some (closed_issue, t)
passed o = o

abbrev pub outcome : ℕ → Option Finding → Option (IssueStatus × ℕ) → Option (IssueStatus × ℕ)
outcome now none o = o
outcome now (some f) o = if f.failed then raised now o else passed o

module _ (url : ℕ) (impact : Severity → ℕ) (now : ℕ) where
  -- One rule's turn in a store that does not fail.
  settle : String → Finding → Option Issue → List Issue → ℕ → List Issue
  settle id f prior rows next =
      if f.failed
      then (if prior_is is_ignored_issue prior
          then rows
          else upsert_row next (issue_of url impact now f prior) rows)
      else (if prior_is open_or_ignored prior then close_row url id now rows else rows)

  reconcile-settle :
      (id : String) (f : Finding) (prior : Option Issue) (s : Store)
      → s.faults ≡ []
      → (s' : Store) × (reconcile url impact now id f prior s ≡ (ok tt, s'))
        × (s'.faults ≡ [])
        × (s'.db.issues ≡ settle id f prior s.db.issues s.db.next_id)
  unfolding reconcile attempt settle upsert_issue close_issue
  reconcile-settle id f prior s h =
      ((reconcile url impact now id f prior s).1, ground arith, ground arith, ground arith)

  module _ (id : String) (f : Finding) (rows : List Issue) (next : ℕ) (own : f.rule_id ≡ id) where
    settle-UniqueKeys :
        (prior : Option Issue) → UniqueKeys rows → UniqueKeys (settle id f prior rows next)
    unfolding settle
    settle-UniqueKeys prior v = ground (
      arith,
      UniqueKeys-upsert_row next (issue_of url impact now f prior) rows v,
      UniqueKeys-close_row url now id rows v,
    )

    settle-self_at :
        (o : Option Issue)
        → find_issue url id rows ≡ o
        → state (find_issue url id (settle id f o rows next)) ≡ outcome now (some f) (state o)
    unfolding settle has_key
    settle-self_at none h =
        ground (
          arith,
          find_issue-upsert_row url next id (issue_of url impact now f none) rows,
          eq_refl id,
        )
    settle-self_at (some i) h =
        elim i.status
            as (λ st.
              i.status ≡ st
              → state (find_issue url id (settle id f (some i) rows next))
                ≡ outcome now (some f) (some (st, i.opened_at))) [
                  | open_issue ↦ λ e. ground (
                    arith,
                    find_issue-upsert_row url next id (issue_of url impact now f (some i)) rows,
                    eq_refl id,
                    find_issue-close_self url now id rows,
                  )
                  | closed_issue ↦ λ e. ground (
                    arith,
                    find_issue-upsert_row url next id (issue_of url impact now f (some i)) rows,
                    eq_refl id,
                  )
                  | ignored_issue ↦ λ e. ground (arith, find_issue-close_self url now id rows)
                ]
          refl

    settle-ne :
        (prior : Option Issue) (y : String)
        → id ≢ y
        → find_issue url y (settle id f prior rows next) ≡ find_issue url y rows
    unfolding settle has_key
    settle-ne prior y ne = ground (
      arith,
      eq_iff f.rule_id y,
      find_issue-upsert_row url next y (issue_of url impact now f prior) rows,
      find_issue-close_ne url url now y id rows ne,
    )

    settle-other :
        (prior : Option Issue) (v : ℕ) (y : String)
        → url ≢ v
        → find_issue v y (settle id f prior rows next) ≡ find_issue v y rows
    unfolding settle has_key
    settle-other prior v y ne = ground (
      arith,
      find_issue-upsert_row v next y (issue_of url impact now f prior) rows,
      find_issue-close_other v url now y id rows ne,
    )

module _ {C : Type 0} (url : ℕ) (impact : Severity → ℕ) (now : ℕ) (ec : C) where
  -- The listed issues are those of the rules that are still to come.
  abbrev Current : List Issue → List (Rule C) → List Issue → Type 0
  Current existing rs rows =
      (y : String) → verdict ec y rs ≢ none → by_rule y existing ≡ find_issue url y rows

  -- The rows at the end of a loop that meets no fault.
  abbrev pub Settled : List (Rule C) → List Issue → Store → Type 0
  Settled rs rows s =
      (s.faults ≡ [])
      × UniqueKeys s.db.issues
      × ((y : String)
          → state (find_issue url y s.db.issues)
            ≡ outcome now (verdict ec y rs) (state (find_issue url y rows)))
      × ((v : ℕ) (y : String) → url ≢ v → find_issue v y s.db.issues ≡ find_issue v y rows)

  fresh_apart :
      (r : Rule C) (rs : List (Rule C)) (y : String)
      → verdict ec r.id rs ≡ none
      → verdict ec y rs ≢ none
      → r.id ≢ y
  fresh_apart r rs y fresh named p = named (subst (λ x. verdict ec x rs ≡ none) p fresh)

  verdict_ne :
      (r : Rule C) (rs : List (Rule C)) (y : String)
      → r.id ≢ y
      → verdict ec y (r ∷ rs) ≡ none
      → verdict ec y rs ≡ none
  verdict_ne r rs y ne h = ground (arith, eq_iff r.id y)

  -- The rest of the loop leaves the issue of the first rule as that rule's turn left it.
  join :
      (r : Rule C) (rs : List (Rule C)) (y : String) (rows rows' : List Issue)
      → verdict ec r.id rs ≡ none
      → state (find_issue url r.id rows')
        ≡ outcome now (some (r.eval ec)) (state (find_issue url r.id rows))
      → ((x : String) → r.id ≢ x → find_issue url x rows' ≡ find_issue url x rows)
      → outcome now (verdict ec y rs) (state (find_issue url y rows'))
        ≡ outcome now (verdict ec y (r ∷ rs)) (state (find_issue url y rows))
  join r rs y rows rows' fresh self others = elim (Bool-cases (str_eq r.id y)) [
    | inl same ↦
        let at = (eq_iff r.id y).0 same in
        rw (same, subst (λ x. verdict ec x rs ≡ none) at fresh)
          (subst
            (λ x.
              state (find_issue url x rows')
              ≡ outcome now (some (r.eval ec)) (state (find_issue url x rows)))
            at self)
    | inr other ↦ rw (other, others y (λ p. ground (arith, eq_iff r.id y))) refl
  ]

  apply_rules-cons :
      (existing : List Issue) (r : Rule C) (rs : List (Rule C)) (s s' : Store)
      → reconcile url impact now r.id (r.eval ec) (by_rule r.id existing) s ≡ (ok tt, s')
      → apply_rules url impact now ec existing (r ∷ rs) s
        ≡ apply_rules url impact now ec existing rs s'
  unfolding apply_rules
  apply_rules-cons existing r rs s s' h =
      ap
        (λ p. elim p.0 [
          | ok u ↦ apply_rules url impact now ec existing rs p.1
          | err e ↦ (err e, p.1)
        ])
        h

  loop-Settled :
      (existing : List Issue) (rs : List (Rule C)) (s : Store)
      → s.faults ≡ []
      → UniqueKeys s.db.issues
      → IsRuleSet ec rs
      → Current existing rs s.db.issues
      → ((apply_rules url impact now ec existing rs s).0 ≡ ok tt)
        × Settled rs s.db.issues (apply_rules url impact now ec existing rs s).1
  unfolding apply_rules
  loop-Settled existing [] s q v d c = (refl, (q, v, (λ y. refl), (λ v y ne. refl)))
  loop-Settled existing (r ∷ rs) s q v (fresh, own, d) c =
      let f = r.eval ec in
      let prior = by_rule r.id existing in
      let next = s.db.next_id in
      let (s', done, calm, rows) = reconcile-settle url impact now r.id f prior s q in
      let unique : UniqueKeys s'.db.issues =
        rw rows (settle-UniqueKeys url impact now r.id f s.db.issues next own prior v) in
      let others : (y : String)
          → r.id ≢ y
          → find_issue url y s'.db.issues ≡ find_issue url y s.db.issues =
        λ y ne. rw rows (settle-ne url impact now r.id f s.db.issues next own prior y ne) in
      let prior_is_row : prior ≡ find_issue url r.id s.db.issues =
        c r.id (ground (arith, eq_refl r.id)) in
      let self : state (find_issue url r.id s'.db.issues)
          ≡ outcome now (some f) (state (find_issue url r.id s.db.issues)) =
        rw (rows, prior_is_row)
          (settle-self_at url impact now r.id f s.db.issues next own
            (find_issue url r.id s.db.issues) refl) in
      let current : Current existing rs s'.db.issues = λ y named.
        let apart = fresh_apart r rs y fresh named in
        c y (λ e. named (verdict_ne r rs y apart e)) ∙ sym (others y apart) in
      let (ends, (quiet, uniq, mine, foreign)) =
        loop-Settled existing rs s' calm unique d current in
      rw (apply_rules-cons existing r rs s s' done) (
        ends,
        (
          quiet,
          uniq,
          (λ y. mine y ∙ join r rs y s.db.issues s'.db.issues fresh self others),
          (λ v y ne.
              foreign v y ne
              ∙ rw rows (settle-other url impact now r.id f s.db.issues next own prior v y ne)),
        ),
      )

  apply-quiet :
      (rules : List (Rule C)) (s : Store)
      → s.faults ≡ []
      → apply rules url impact now ec s
        ≡ apply_rules url impact now ec (list_issues (by_url url false) s.db) rules s
  unfolding apply attempt
  apply-quiet rules s q =
      let still : record s { faults = [] } ≡ s = rw (← q) refl in
      subst
        (λ t.
          apply rules url impact now ec t
          ≡ apply_rules url impact now ec (list_issues (by_url url false) t.db) rules t)
        still refl

  -- In a quiet store with one row for each key, for rules with distinct ids: a run of the engine
  -- over a page succeeds. Each issue of the page is then as its rule's verdict says: a failing rule
  -- opens the issue (an open one keeps the time when it was opened, and an ignored one stays
  -- ignored); a passing rule closes an open issue and changes no other. The issues of no rule of the
  -- set, and those of every other page, are as they were.
  pub apply_outcome :
      (rules : List (Rule C)) (s : Store)
      → s.faults ≡ []
      → UniqueKeys s.db.issues
      → IsRuleSet ec rules
      → ((apply rules url impact now ec s).0 ≡ ok tt)
        × Settled rules s.db.issues (apply rules url impact now ec s).1
  apply_outcome rules s q v d = rw (apply-quiet rules s q) (
      loop-Settled (list_issues (by_url url false) s.db) rules s q v d
        (λ y named. by_rule-list_issues url y s.db v))
