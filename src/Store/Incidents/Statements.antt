-- ===== src/Store/Incidents/Statements.antt =====
-- What each statement on the alerts table does to its shape and to the open incident of a
-- fingerprint.
use rabbot_seo.Base.{
  ℕ, ◌<◌, ◌≡◌, ◌≢◌, refl, ◌∙◌, String, Bool, true, none, some, List, [], ◌∷◌, if◌then◌else◌, arith,
  str_eq, eq_iff,
}
use rabbot_seo.Model.{Alert, is_open}
use rabbot_seo.Store.Incidents.{
  Db, find_open, written, closed, get_open_incident, open_incident, update_incident, close_incident,
}
use rabbot_seo.Store.Incidents.Rows.{
  Below, IsWellFormed, MembersBelow-suc, find_open-id_lt, find_open_sound, find_open-update_self,
  find_open-update_ne, Below-update_row, OpenUnique-update_row, OpenUnique-close,
}

pub open_incident-IsWellFormed :
    (a : Alert) (db : Db) (i : ℕ) (db' : Db)
    → IsWellFormed db
    → open_incident a db ≡ some (i, db')
    → IsWellFormed db'
unfolding open_incident
open_incident-IsWellFormed a db i db' v h = ground (arith, MembersBelow-suc db.next_id db.members)

pub update_incident-IsWellFormed :
    (fp : String) (cur a : Alert) (db : Db)
    → IsWellFormed db
    → get_open_incident fp db ≡ some cur
    → a.id ≡ cur.id
    → IsWellFormed (update_incident a db)
unfolding get_open_incident update_incident
update_incident-IsWellFormed fp cur a db v h same = rw same (record {
  fresh = Below-update_row (written a) (λ r. refl) cur.id db.next_id db.alerts v.fresh;
  unique =
      OpenUnique-update_row (written a) (λ r. refl) fp db.next_id db.alerts cur v.fresh v.unique h;
  owned = v.owned;
})

pub close_incident-IsWellFormed :
    (i at : ℕ) (auto : Bool) (db : Db)
    → IsWellFormed db
    → IsWellFormed (close_incident i at auto db)
unfolding close_incident
close_incident-IsWellFormed i at auto db v = record {
  fresh = Below-update_row (closed at auto) (λ r. ground arith) i db.next_id db.alerts v.fresh;
  unique = OpenUnique-close i at auto db.alerts v.unique;
  owned = v.owned;
}

-- Opening an incident makes it the open one of its fingerprint, and changes no other fingerprint.
pub find_open-insert :
    (a : Alert) (k : String) (rows : List Alert)
    → is_open a.status ≡ true
    → find_open a.fingerprint rows ≡ none
    → find_open k (a ∷ rows) ≡ (if str_eq a.fingerprint k then some a else find_open k rows)
unfolding find_open
find_open-insert a k rows o h = ground (arith, eq_iff a.fingerprint k)

module _ (fp : String) (cur : Alert) (db : Db) (v : IsWellFormed db)
    (h : get_open_incident fp db ≡ some cur) where
  pub get-update_self :
      (a : Alert)
      → a.id ≡ cur.id
      → is_open a.status ≡ true
      → get_open_incident fp (update_incident a db) ≡ some (written a cur)
  unfolding get_open_incident update_incident
  get-update_self a same o = rw same (
      find_open-update_self (written a) (λ r. refl) fp db.next_id db.alerts cur v.fresh v.unique h
      ∙ ground arith)

  pub get-update_ne :
      (a : Alert) (k : String)
      → a.id ≡ cur.id
      → fp ≢ k
      → get_open_incident k (update_incident a db) ≡ get_open_incident k db
  unfolding get_open_incident update_incident
  get-update_ne a k same d = rw same (
      find_open-update_ne (written a) (λ r. refl) fp k db.next_id db.alerts cur v.fresh v.unique h
        d)

  pub get-close_self :
      (at : ℕ) (auto : Bool) → get_open_incident fp (close_incident cur.id at auto db) ≡ none
  unfolding get_open_incident close_incident
  get-close_self at auto =
      find_open-update_self (closed at auto) (λ r. ground arith) fp db.next_id db.alerts cur v.fresh
        v.unique h
      ∙ ground arith

  pub get-close_ne :
      (at : ℕ) (auto : Bool) (k : String)
      → fp ≢ k
      → get_open_incident k (close_incident cur.id at auto db) ≡ get_open_incident k db
  unfolding get_open_incident close_incident
  get-close_ne at auto k d =
      find_open-update_ne (closed at auto) (λ r. ground arith) fp k db.next_id db.alerts cur v.fresh
        v.unique h d

-- Two fingerprints' open rows are two rows.
pub find_open-ids_ne :
    (fp k : String) (n : ℕ) (rows : List Alert) (c d : Alert)
    → Below n rows
    → find_open fp rows ≡ some c
    → find_open k rows ≡ some d
    → fp ≢ k
    → c.id ≢ d.id
unfolding find_open
find_open-ids_ne fp k n [] c d b h g ne = cc
find_open-ids_ne fp k n (a ∷ rows) c d b h g ne =
    let below_c = find_open-id_lt fp a.id rows c b.1 in
    let below_d = find_open-id_lt k a.id rows d b.1 in
    ground (
      arith,
      eq_iff a.fingerprint fp,
      eq_iff a.fingerprint k,
      below_c,
      below_d,
      find_open-ids_ne fp k a.id rows c d b.1,
    )

pub get-id_lt :
    (fp : String) (db : Db) (cur : Alert)
    → IsWellFormed db
    → get_open_incident fp db ≡ some cur
    → cur.id < db.next_id
unfolding get_open_incident
get-id_lt fp db cur v h = find_open-id_lt fp db.next_id db.alerts cur v.fresh h

pub get-ids_ne :
    (fp k : String) (db : Db) (c d : Alert)
    → IsWellFormed db
    → get_open_incident fp db ≡ some c
    → get_open_incident k db ≡ some d
    → fp ≢ k
    → c.id ≢ d.id
unfolding get_open_incident
get-ids_ne fp k db c d v h g ne = find_open-ids_ne fp k db.next_id db.alerts c d v.fresh h g ne

pub get-open :
    (fp : String) (db : Db) (cur : Alert)
    → get_open_incident fp db ≡ some cur
    → is_open cur.status ≡ true
unfolding get_open_incident
get-open fp db cur h = (find_open_sound fp db.alerts cur h).0
