-- ===== src/Alerts/Pipeline/Removal.antt =====
-- The incident tables after `Resolve`, branch by branch, seen through the probe for a member.
use mathlib.Core.Path.{subst}
use rabbot_seo.Base.{
  ℕ, ◌<◌, ◌≡◌, ◌≢◌, refl, sym, ◌∙◌, String, true, false, none, some, ◌&&◌, ◌==◌, if◌then◌else◌,
  arith, str_eq, eq_iff, Bool-cases, Option-cases, inl, inr,
}
use rabbot_seo.Model.{Alert}
use rabbot_seo.Store.Incidents
use rabbot_seo.Store.Incidents.{Db, is_member, delete_member, count_members}
use rabbot_seo.Store.Incidents.Rows.{IsWellFormed}
use rabbot_seo.Store.Incidents.Statements.{
  close_incident-IsWellFormed, get-close_self, get-close_ne, get-ids_ne,
}
use rabbot_seo.Store.Incidents.Members.{
  is_member-delete, count_members-zero, count_members-pos, remove-IsWellFormed,
}
use rabbot_seo.Alerts.Pipeline.Tables.{affected, member_of, affected-eq-member_of}

module _ (fp url : String) (db : Db) (v : IsWellFormed db) (cur : Alert)
    (h : Incidents.get_open_incident fp db ≡ some cur) where
  abbrev pub removed_db : Db
  removed_db = (Incidents.remove_alert_member cur.id url db).1

  abbrev pub remaining : ℕ
  remaining = (Incidents.remove_alert_member cur.id url db).0

  pub get-removed :
      (k : String) → Incidents.get_open_incident k removed_db ≡ Incidents.get_open_incident k db
  unfolding Incidents.get_open_incident Incidents.remove_alert_member
  get-removed k = refl

  pub is_member-removed :
      (i : ℕ) (u : String)
      → is_member i u removed_db.members
        ≡ (if (cur.id == i) && str_eq url u then false else is_member i u db.members)
  unfolding Incidents.remove_alert_member
  is_member-removed i u = is_member-delete i cur.id u url db.members

  pub none_left : (u : String) → remaining ≡ 0 → is_member cur.id u removed_db.members ≡ false
  unfolding Incidents.remove_alert_member
  none_left u z = count_members-zero cur.id (delete_member cur.id url db.members) u z

  pub some_left : 0 < remaining → (u : String) × (is_member cur.id u removed_db.members ≡ true)
  unfolding Incidents.remove_alert_member
  some_left more = count_members-pos cur.id (delete_member cur.id url db.members) more

  member_of-removed :
      (k u : String)
      → fp ≢ k
      → member_of (Incidents.get_open_incident k db) u removed_db.members
        ≡ member_of (Incidents.get_open_incident k db) u db.members
  member_of-removed k u ne = elim (Option-cases (Incidents.get_open_incident k db)) [
    | inl absent ↦ rw absent
    | inr (c, found) ↦
        let apart = get-ids_ne fp k db cur c v h found ne in
        rw found (is_member-removed c.id u ∙ ground arith)
  ]

  pub removed-IsWellFormed : IsWellFormed removed_db
  removed-IsWellFormed = remove-IsWellFormed cur.id url db v

  pub affected-removed :
      (k u : String)
      → affected k u removed_db ≡ (if str_eq fp k && str_eq url u then false else affected k u db)
  affected-removed k u = elim (Bool-cases (str_eq fp k)) [
    | inl same ↦
        let found =
          subst (λ x. Incidents.get_open_incident x db ≡ some cur) ((eq_iff fp k).0 same) h in
        rw
          (
            affected-eq-member_of k u removed_db removed-IsWellFormed,
            affected-eq-member_of k u db v,
            get-removed k,
            found,
            same,
          )
          (is_member-removed cur.id u ∙ ground arith)
    | inr other ↦
        rw
          (
            affected-eq-member_of k u removed_db removed-IsWellFormed,
            affected-eq-member_of k u db v,
            get-removed k,
            other,
          )
          (member_of-removed k u (λ p. ground (arith, eq_iff fp k)))
  ]

  module _ (now : ℕ) where
    abbrev pub closed_db : Db
    closed_db = Incidents.close_incident cur.id now false removed_db

    pub closed-IsWellFormed : IsWellFormed closed_db
    closed-IsWellFormed =
        close_incident-IsWellFormed cur.id now false removed_db removed-IsWellFormed

    members-closed : closed_db.members ≡ removed_db.members
    unfolding Incidents.close_incident
    members-closed = refl

    get-removed_self : Incidents.get_open_incident fp removed_db ≡ some cur
    get-removed_self = get-removed fp ∙ h

    pub get-closed_self : Incidents.get_open_incident fp closed_db ≡ none
    get-closed_self =
        get-close_self fp cur removed_db removed-IsWellFormed get-removed_self now false

    -- With nobody left, closing the incident takes nothing from what the probe sees.
    pub affected-closed :
        (k u : String) → remaining ≡ 0 → affected k u closed_db ≡ affected k u removed_db
    affected-closed k u z = elim (Bool-cases (str_eq fp k)) [
      | inl same ↦
          let at = (eq_iff fp k).0 same in
          rw
            (
              affected-eq-member_of k u closed_db closed-IsWellFormed,
              affected-eq-member_of k u removed_db removed-IsWellFormed,
              subst (λ x. Incidents.get_open_incident x closed_db ≡ none) at get-closed_self,
              subst (λ x. Incidents.get_open_incident x removed_db ≡ some cur) at get-removed_self,
            )
            (sym (none_left u z))
      | inr other ↦ rw (
        affected-eq-member_of k u closed_db closed-IsWellFormed,
        affected-eq-member_of k u removed_db removed-IsWellFormed,
        get-close_ne fp cur removed_db removed-IsWellFormed get-removed_self now false k
            (λ p. ground (arith, eq_iff fp k)),
        members-closed,
      )
    ]
