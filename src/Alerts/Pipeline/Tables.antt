-- ===== src/Alerts/Pipeline/Tables.antt =====
-- The incident tables after `Ingest`, branch by branch, seen through the probe for a member.
use rabbot_seo.Base.{
  ℕ, ◌<◌, ◌≡◌, ◌≢◌, refl, sym, ◌∙◌, String, Bool, true, false, Option, none, some, List, ◌==◌, ◌&&◌,
  if◌then◌else◌, arith, str_eq, eq_iff, Bool-cases, Option-cases, inl, inr,
}
use mathlib.Core.Path.{subst}
use rabbot_seo.Model.{Alert, is_open}
use rabbot_seo.Store.Incidents
use rabbot_seo.Store.Incidents.{Db, is_member, written}
use rabbot_seo.Store.Incidents.Rows.{IsWellFormed}
use rabbot_seo.Store.Incidents.Statements.{
  find_open-insert, get-update_self, get-update_ne, get-id_lt, get-ids_ne,
  open_incident-IsWellFormed, update_incident-IsWellFormed,
}
use rabbot_seo.Store.Incidents.Members.{
  is_member-add, is_member_fresh, has_open_member_none, has_open_member_some, add-IsWellFormed,
}
use rabbot_seo.Alerts.Event.{Event}
use rabbot_seo.Alerts.Pipeline.{Env, new_incident}
use rabbot_seo.Alerts.Pipeline.Laws.{fp_of, member_db, inserted_db}

abbrev pub affected : String → String → Db → Bool
affected = Incidents.has_open_incident_member

abbrev pub member_of : Option Alert → String → List (ℕ × String) → Bool
member_of none u ms = false
member_of (some cur) u ms = is_member cur.id u ms

-- The probe's join, read off the one open incident.
pub affected-eq-member_of :
    (k u : String) (db : Db)
    → IsWellFormed db
    → affected k u db ≡ member_of (Incidents.get_open_incident k db) u db.members
affected-eq-member_of k u db v = elim (Option-cases (Incidents.get_open_incident k db)) [
  | inl absent ↦ rw absent (has_open_member_none k u db absent)
  | inr (cur, found) ↦ rw found (has_open_member_some k u db cur v found)
]

pub get-member_db :
    (k : String) (i : ℕ) (u : String) (db : Db)
    → Incidents.get_open_incident k (member_db i u db) ≡ Incidents.get_open_incident k db
unfolding Incidents.get_open_incident Incidents.add_alert_member
get-member_db k i u db = ground arith

is_member-member_db :
    (i j : ℕ) (u v : String) (db : Db)
    → v ≢ ""
    → is_member i u (member_db j v db).members
      ≡ (if (j == i) && str_eq v u then true else is_member i u db.members)
is_member-member_db i j u v db h = ground (arith, eq_iff v "", is_member-add i j u v db)

-- A row that is not the changed incident's does not see its new member.
member_of-ne :
    (o : Option Alert) (i : ℕ) (u url : String) (db : Db)
    → url ≢ ""
    → ((c : Alert) → o ≡ some c → c.id ≢ i)
    → member_of o u (member_db i url db).members ≡ member_of o u db.members
member_of-ne none i u url db ne other = refl
member_of-ne (some c) i u url db ne other =
    let apart = other c refl in ground (arith, is_member-member_db c.id i u url db ne)

member_db-IsWellFormed :
    (i : ℕ) (u : String) (db : Db)
    → IsWellFormed db
    → i < db.next_id
    → IsWellFormed (member_db i u db)
member_db-IsWellFormed i u db v h = ground (arith, add-IsWellFormed i u db v h)

module _ (env : Env) (now : ℕ) (e : Event) (db : Db) (v : IsWellFormed db) where
  module _ (h : Incidents.get_open_incident (fp_of env e) db ≡ none) where
    inserted-IsWellFormed : IsWellFormed (inserted_db env now e db)
    unfolding Incidents.open_incident Incidents.get_open_incident
    inserted-IsWellFormed =
        open_incident-IsWellFormed (new_incident env now e) db db.next_id (inserted_db env now e db)
          v (ground arith)

    pub opened-IsWellFormed : IsWellFormed (member_db db.next_id e.url (inserted_db env now e db))
    opened-IsWellFormed =
        member_db-IsWellFormed db.next_id e.url (inserted_db env now e db) inserted-IsWellFormed
          (omega arith)

    pub get-inserted :
        (k : String)
        → Incidents.get_open_incident k (inserted_db env now e db) ≡ (
            if str_eq (fp_of env e) k
            then some (record (new_incident env now e) {
              id = db.next_id;
              payload_summary = Incidents.payload_or_empty (new_incident env now e).payload_summary;
            })
            else Incidents.get_open_incident k db)
    unfolding Incidents.get_open_incident
    get-inserted k = find_open-insert _ k db.alerts refl h

    -- Before that it holds no URL, and no other identity sees it.
    pub affected-inserted :
        (k u : String) → affected k u (inserted_db env now e db) ≡ affected k u db
    affected-inserted k u = elim (Bool-cases (str_eq (fp_of env e) k)) [
      | inl same ↦
          rw (affected-eq-member_of k u _ inserted-IsWellFormed, get-inserted k, same)
            (is_member_fresh db.next_id db.next_id u db.members v.owned (omega arith)
              ∙ sym (
                  has_open_member_none k u db
                    (subst (λ x. Incidents.get_open_incident x db ≡ none) ((eq_iff _ _).0 same) h)))
      | inr other ↦
          rw
            (
              affected-eq-member_of k u _ inserted-IsWellFormed,
              get-inserted k,
              other,
              affected-eq-member_of k u db v,
            )
            refl
    ]

    -- The new incident holds the event's URL alone; the other identities are as they were.
    pub affected-opened :
        (k u : String)
        → e.url ≢ ""
        → affected k u (member_db db.next_id e.url (inserted_db env now e db))
          ≡ (if str_eq (fp_of env e) k && str_eq e.url u then true else affected k u db)
    affected-opened k u ne = elim (Bool-cases (str_eq (fp_of env e) k)) [
      | inl same ↦
          rw
            (
              affected-eq-member_of k u _ opened-IsWellFormed,
              get-member_db k db.next_id e.url (inserted_db env now e db),
              get-inserted k,
              same,
            )
            (ground (
              arith,
              is_member-member_db db.next_id db.next_id u e.url (inserted_db env now e db) ne,
              is_member_fresh db.next_id db.next_id u db.members v.owned,
              has_open_member_none k u db
                  (subst (λ x. Incidents.get_open_incident x db ≡ none) ((eq_iff _ _).0 same) h),
            ))
      | inr other ↦
          rw
            (
              affected-eq-member_of k u _ opened-IsWellFormed,
              get-member_db k db.next_id e.url (inserted_db env now e db),
              get-inserted k,
              other,
              affected-eq-member_of k u db v,
            )
            (member_of-ne (Incidents.get_open_incident k db) db.next_id u e.url
              (inserted_db env now e db) ne
              (λ c found. let below = get-id_lt k db c v found in omega arith))
    ]

  module _ (cur a : Alert) (h : Incidents.get_open_incident (fp_of env e) db ≡ some cur)
      (same_id : a.id ≡ cur.id) (opened : is_open a.status ≡ true) where
    unfoldable pub accrued_db : Db
    accrued_db = Incidents.update_incident a (member_db cur.id e.url db)

    member-IsWellFormed : IsWellFormed (member_db cur.id e.url db)
    member-IsWellFormed =
        member_db-IsWellFormed cur.id e.url db v (get-id_lt (fp_of env e) db cur v h)

    member-found : Incidents.get_open_incident (fp_of env e) (member_db cur.id e.url db) ≡ some cur
    member-found = get-member_db (fp_of env e) cur.id e.url db ∙ h

    -- The open incident has the event's URL as soon as the member is written.
    pub affected-member :
        (k u : String)
        → e.url ≢ ""
        → affected k u (member_db cur.id e.url db)
          ≡ (if str_eq (fp_of env e) k && str_eq e.url u then true else affected k u db)
    affected-member k u ne = elim (Bool-cases (str_eq (fp_of env e) k)) [
      | inl same ↦
          let found =
            subst (λ x. Incidents.get_open_incident x db ≡ some cur)
              ((eq_iff (fp_of env e) k).0 same) h in
          rw
            (
              affected-eq-member_of k u _ member-IsWellFormed,
              affected-eq-member_of k u db v,
              get-member_db k cur.id e.url db,
              found,
              same,
            )
            (is_member-member_db cur.id cur.id u e.url db ne ∙ ground arith)
      | inr other ↦
          let apart : fp_of env e ≢ k = λ p. ground (arith, eq_iff (fp_of env e) k) in
          rw
            (
              affected-eq-member_of k u _ member-IsWellFormed,
              affected-eq-member_of k u db v,
              get-member_db k cur.id e.url db,
              other,
            )
            (member_of-ne (Incidents.get_open_incident k db) cur.id u e.url db ne
              (λ c found q. get-ids_ne (fp_of env e) k db cur c v h found apart (sym q)))
    ]

    pub accrued-IsWellFormed : IsWellFormed accrued_db
    unfolding accrued_db
    accrued-IsWellFormed =
        update_incident-IsWellFormed (fp_of env e) cur a (member_db cur.id e.url db)
          member-IsWellFormed member-found same_id

    pub members-accrued : accrued_db.members ≡ (member_db cur.id e.url db).members
    unfolding accrued_db Incidents.update_incident
    members-accrued = refl

    pub get-accrued_self :
        Incidents.get_open_incident (fp_of env e) accrued_db ≡ some (written a cur)
    unfolding accrued_db
    get-accrued_self =
        get-update_self (fp_of env e) cur (member_db cur.id e.url db) member-IsWellFormed
          member-found a same_id opened

    pub get-accrued_ne :
        (k : String)
        → fp_of env e ≢ k
        → Incidents.get_open_incident k accrued_db ≡ Incidents.get_open_incident k db
    unfolding accrued_db
    get-accrued_ne k ne =
        get-update_ne (fp_of env e) cur (member_db cur.id e.url db) member-IsWellFormed member-found
          a k same_id ne
        ∙ get-member_db k cur.id e.url db

    -- The open incident gains the event's URL; the other identities are as they were.
    pub affected-accrued :
        (k u : String)
        → e.url ≢ ""
        → affected k u accrued_db
          ≡ (if str_eq (fp_of env e) k && str_eq e.url u then true else affected k u db)
    affected-accrued k u ne = elim (Bool-cases (str_eq (fp_of env e) k)) [
      | inl same ↦
          let at = (eq_iff (fp_of env e) k).0 same in
          let before = subst (λ x. Incidents.get_open_incident x db ≡ some cur) at h in
          let after =
            subst (λ x. Incidents.get_open_incident x accrued_db ≡ some (written a cur)) at
              get-accrued_self in
          rw
            (
              affected-eq-member_of k u _ accrued-IsWellFormed,
              affected-eq-member_of k u db v,
              before,
              after,
              members-accrued,
              same,
            )
            (is_member-member_db cur.id cur.id u e.url db ne ∙ ground arith)
      | inr other ↦
          let apart : fp_of env e ≢ k = λ p. ground (arith, eq_iff (fp_of env e) k) in
          rw
            (
              affected-eq-member_of k u _ accrued-IsWellFormed,
              affected-eq-member_of k u db v,
              get-accrued_ne k apart,
              members-accrued,
              other,
            )
            (member_of-ne (Incidents.get_open_incident k db) cur.id u e.url db ne
              (λ c found q. get-ids_ne (fp_of env e) k db cur c v h found apart (sym q)))
    ]
