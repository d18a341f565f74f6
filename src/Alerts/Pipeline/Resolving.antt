-- ===== src/Alerts/Pipeline/Resolving.antt =====
-- What `Resolve` does: one URL of an identity recovers, and the last one closes the incident.
use mathlib.Core.Path.{subst}
use rabbot_seo.Base.{
  ℕ, ◌<◌, ◌≡◌, ◌≢◌, ◌↔◌, ◌∙◌, String, false, none, some, ◌&&◌, ltb, if◌then◌else◌, arith, str_eq,
  eq_iff, Bool-cases, Option-cases, inl, inr,
}
use rabbot_seo.Model.{Alert}
use rabbot_seo.Store.Incidents
use rabbot_seo.Store.Incidents.{Db, is_member, delete_member, count_members}
use rabbot_seo.Store.Incidents.Rows.{IsWellFormed}
use rabbot_seo.Store.Incidents.Members.{has_open_member_none, has_open_member_some}
use rabbot_seo.Alerts.Event.{Event}
use rabbot_seo.Alerts.Pipeline.{Env, resolve}
use rabbot_seo.Alerts.Calls.{World}
use rabbot_seo.Alerts.Pipeline.Laws.{quiet, fp_of, resolve_absent, resolve_open}
use rabbot_seo.Alerts.Pipeline.Tables.{affected}
use rabbot_seo.Alerts.Pipeline.Removal.{
  removed_db, remaining, closed_db, get-removed, is_member-removed, none_left, some_left,
  removed-IsWellFormed, affected-removed, closed-IsWellFormed, affected-closed, get-closed_self,
}

-- With no open incident there is nothing to take.
absent_removes :
    (fp k url u : String) (db : Db)
    → Incidents.get_open_incident fp db ≡ none
    → affected k u db ≡ (if str_eq fp k && str_eq url u then false else affected k u db)
absent_removes fp k url u db h = elim (Bool-cases (str_eq fp k)) [
  | inl same ↦
      let at = subst (λ x. Incidents.get_open_incident x db ≡ none) ((eq_iff fp k).0 same) h in
      rw (same, has_open_member_none k u db at) (ground arith)
  | inr other ↦ rw other
]

module _ (env : Env) (now : ℕ) (e : Event) (w : World) (v : IsWellFormed w.db) where
  -- The tables after `Resolve` are those of one of its branches.
  resolve-tables {ℓ} :
      (P : Db → Type ℓ)
      → (Incidents.get_open_incident (fp_of env e) w.db ≡ none → P w.db)
      → ((cur : Alert) (h : Incidents.get_open_incident (fp_of env e) w.db ≡ some cur)
          → 0 < remaining (fp_of env e) e.url w.db v cur h
          → P (removed_db (fp_of env e) e.url w.db v cur h))
      → ((cur : Alert) (h : Incidents.get_open_incident (fp_of env e) w.db ≡ some cur)
          → remaining (fp_of env e) e.url w.db v cur h ≡ 0
          → P (closed_db (fp_of env e) e.url w.db v cur h now))
      → P (resolve env now e (quiet w)).1.db
  resolve-tables P none_open others last =
      elim (Option-cases (Incidents.get_open_incident (fp_of env e) w.db)) [
        | inl absent ↦ rw (resolve_absent env now e w absent) (none_open absent)
        | inr (cur, found) ↦
            rw (resolve_open env now e w cur found)
              (elim (Bool-cases (ltb 0 (remaining (fp_of env e) e.url w.db v cur found))) [
                | inl more ↦ rw more (others cur found (ground arith))
                | inr done ↦ rw done (last cur found (ground arith))
              ])
      ]

  -- In a quiet world `Resolve` takes exactly one pair from what the open incidents hold: the
  -- event's identity with the event's URL. No other pair changes.
  pub affected-resolve :
      (k u : String)
      → affected k u (resolve env now e (quiet w)).1.db
        ≡ (if str_eq (fp_of env e) k && str_eq e.url u then false else affected k u w.db)
  affected-resolve k u =
      resolve-tables
        (λ db.
          affected k u db
          ≡ (if str_eq (fp_of env e) k && str_eq e.url u then false else affected k u w.db))
        (λ absent. absent_removes (fp_of env e) k e.url u w.db absent)
        (λ cur h more. affected-removed (fp_of env e) e.url w.db v cur h k u)
        (λ cur h z.
          affected-closed (fp_of env e) e.url w.db v cur h now k u z
          ∙ affected-removed (fp_of env e) e.url w.db v cur h k u)

  pub resolve-IsWellFormed : IsWellFormed (resolve env now e (quiet w)).1.db
  resolve-IsWellFormed =
      resolve-tables IsWellFormed (λ _. v)
        (λ cur h _. removed-IsWellFormed (fp_of env e) e.url w.db v cur h)
        (λ cur h _. closed-IsWellFormed (fp_of env e) e.url w.db v cur h now)

  module _ (cur : Alert) (h : Incidents.get_open_incident (fp_of env e) w.db ≡ some cur) where
    left : ℕ
    left = remaining (fp_of env e) e.url w.db v cur h

    closed→alone :
        Incidents.get_open_incident (fp_of env e) (resolve env now e (quiet w)).1.db ≡ none
        → (u : String) → u ≢ e.url
        → affected (fp_of env e) u w.db ≡ false
    unfolding left
    closed→alone none_open u ne = elim (Bool-cases (ltb 0 left)) [
      | inl more ↦
          let still = get-removed (fp_of env e) e.url w.db v cur h (fp_of env e) ∙ h in
          cc (still, rw (resolve_open env now e w cur h, more) at none_open)
      | inr done ↦
          has_open_member_some (fp_of env e) u w.db cur v h
          ∙ ground (
            arith,
            eq_iff e.url u,
            none_left (fp_of env e) e.url w.db v cur h u (ground arith),
            is_member-removed (fp_of env e) e.url w.db v cur h cur.id u,
          )
    ]

    alone→closed :
        ((u : String) → u ≢ e.url → affected (fp_of env e) u w.db ≡ false)
        → Incidents.get_open_incident (fp_of env e) (resolve env now e (quiet w)).1.db ≡ none
    unfolding left
    alone→closed alone = elim (Bool-cases (ltb 0 left)) [
      | inl more ↦
          let (u, m) = some_left (fp_of env e) e.url w.db v cur h (ground arith) in
          absurd (
            ground (
              arith,
              eq_iff e.url u,
              m,
              is_member-removed (fp_of env e) e.url w.db v cur h cur.id u,
              has_open_member_some (fp_of env e) u w.db cur v h,
              alone u,
            ))
      | inr done ↦
          rw (resolve_open env now e w cur h, done)
            (get-closed_self (fp_of env e) e.url w.db v cur h now)
    ]

    -- In a quiet world, with the incident of the event's identity open, `Resolve` closes it exactly
    -- when no other URL is still affected.
    pub resolve_closes_iff :
        (Incidents.get_open_incident (fp_of env e) (resolve env now e (quiet w)).1.db ≡ none)
        ↔ ((u : String) → u ≢ e.url → affected (fp_of env e) u w.db ≡ false)
    resolve_closes_iff = (closed→alone, alone→closed)
