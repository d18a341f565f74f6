-- ===== src/Store/Incidents/Members.antt =====
-- The member URLs of an incident, and the probe for a member of an open one.
use rabbot_seo.Base.{
  ℕ, ◌≤◌, ◌<◌, ◌≡◌, refl, String, true, false, ◌&&◌, none, some, List, [], ◌∷◌, ltb, ◌==◌,
  if◌then◌else◌, arith, str_eq, eq_iff, eq_refl, Bool-cases, inl, inr,
}
use rabbot_seo.Model.{Alert}
use rabbot_seo.Store.Incidents.{
  Db, open_with, find_open, get_open_incident, is_member, add_alert_member, delete_member,
  count_members, remove_alert_member, open_member_rows, has_open_incident_member,
}
use rabbot_seo.Store.Incidents.Rows.{OpenUnique, MembersBelow, IsWellFormed, find_open-head}

pub is_member-add :
    (i j : ℕ) (u v : String) (db : Db)
    → is_member i u (add_alert_member j v db).members
      ≡ (if (j == i) && str_eq v u then true else is_member i u db.members)
unfolding is_member add_alert_member
is_member-add i j u v db = ground (arith, eq_iff v u)

pub is_member-delete :
    (i j : ℕ) (u v : String) (ms : List (ℕ × String))
    → is_member i u (delete_member j v ms)
      ≡ (if (j == i) && str_eq v u then false else is_member i u ms)
unfolding is_member delete_member
is_member-delete i j u v [] = ground arith
is_member-delete i j u v ((k, w) ∷ ms) =
    ground (arith, is_member-delete i j u v ms, eq_iff w v, eq_iff w u, eq_iff v u)

-- An incident has no members left exactly when nothing is a member.
pub count_members-zero :
    (i : ℕ) (ms : List (ℕ × String)) (u : String)
    → count_members i ms ≡ 0
    → is_member i u ms ≡ false
unfolding count_members is_member
count_members-zero i [] u h = refl
count_members-zero i ((j, w) ∷ ms) u h = ground (arith, count_members-zero i ms u)

pub count_members-pos :
    (i : ℕ) (ms : List (ℕ × String))
    → 0 < count_members i ms
    → (u : String) × (is_member i u ms ≡ true)
unfolding count_members is_member
count_members-pos i [] h = absurd (omega arith)
count_members-pos i ((j, w) ∷ ms) h = elim (Bool-cases (j == i)) [
  | inl hit ↦ (w, ground (arith, eq_refl w))
  | inr miss ↦ let (u, m) = count_members-pos i ms (ground arith) in (u, ground arith)
]

pub is_member_fresh :
    (i n : ℕ) (u : String) (ms : List (ℕ × String))
    → MembersBelow n ms
    → n ≤ i
    → is_member i u ms ≡ false
unfolding is_member
is_member_fresh i n u [] b h = refl
is_member_fresh i n u ((j, w) ∷ ms) b h = ground (arith, is_member_fresh i n u ms b.1)

pub add-IsWellFormed :
    (i : ℕ) (u : String) (db : Db)
    → IsWellFormed db
    → i < db.next_id
    → IsWellFormed (add_alert_member i u db)
unfolding add_alert_member
add-IsWellFormed i u db v h = ground arith

MembersBelow-delete :
    (i n : ℕ) (u : String) (ms : List (ℕ × String))
    → MembersBelow n ms
    → MembersBelow n (delete_member i u ms)
unfolding delete_member
MembersBelow-delete i n u [] b = tt
MembersBelow-delete i n u ((j, w) ∷ ms) b = ground (arith, MembersBelow-delete i n u ms b.1)

pub remove-IsWellFormed :
    (i : ℕ) (u : String) (db : Db) → IsWellFormed db → IsWellFormed (remove_alert_member i u db).1
unfolding remove_alert_member
remove-IsWellFormed i u db v = ground (arith, MembersBelow-delete i db.next_id u db.members v.owned)

-- The probe's join counts nothing when no row of the fingerprint is open.
open_member_rows-none :
    (fp url : String) (ms : List (ℕ × String)) (rows : List Alert)
    → find_open fp rows ≡ none
    → open_member_rows fp url ms rows ≡ 0
unfolding open_member_rows find_open
open_member_rows-none fp url ms [] h = refl
open_member_rows-none fp url ms (a ∷ rows) h = ground (arith, open_member_rows-none fp url ms rows)

open_member_rows-some :
    (fp url : String) (ms : List (ℕ × String)) (rows : List Alert) (cur : Alert)
    → OpenUnique rows
    → find_open fp rows ≡ some cur
    → ltb 0 (open_member_rows fp url ms rows) ≡ is_member cur.id url ms
unfolding open_member_rows find_open
open_member_rows-some fp url ms [] cur u h = cc
open_member_rows-some fp url ms (a ∷ rows) cur u h = elim (Bool-cases (open_with fp a)) [
  | inl hit ↦ ground (arith, find_open-head fp a rows u hit, open_member_rows-none fp url ms rows)
  | inr miss ↦ ground (arith, open_member_rows-some fp url ms rows cur u.1)
]

-- The probe asks for membership in the one open incident.
pub has_open_member_none :
    (fp url : String) (db : Db)
    → get_open_incident fp db ≡ none
    → has_open_incident_member fp url db ≡ false
unfolding has_open_incident_member get_open_incident
has_open_member_none fp url db h = ground (arith, open_member_rows-none fp url db.members db.alerts)

pub has_open_member_some :
    (fp url : String) (db : Db) (cur : Alert)
    → IsWellFormed db
    → get_open_incident fp db ≡ some cur
    → has_open_incident_member fp url db ≡ is_member cur.id url db.members
unfolding has_open_incident_member get_open_incident
has_open_member_some fp url db cur v h =
    open_member_rows-some fp url db.members db.alerts cur v.unique h
