-- ===== src/Store/Incidents.antt =====
-- internal/store/incidents.go and alert_members.go: the alerts table, newest row first, and the
-- alert_members table. One function for each statement; a statement that SQLite refuses because of
-- the partial unique index on open fingerprints (migration 0002) returns `none`.
pub mod Rows
pub mod Statements
pub mod Members
use rabbot_seo.Base.{
  ℕ, suc, String, Bool, true, false, not, ◌&&◌, Option, none, some, List, [], ◌∷◌, ltb, ◌==◌,
  if◌then◌else◌, length, keep, str_eq,
}
use rabbot_seo.Model.{Alert, AlertStatus, open_status, closed_status, is_open}

pub record Db : Type 0 where
  pub alerts : List Alert
  pub members : List (ℕ × String)
  pub next_id : ℕ

unfoldable pub payload_or_empty : String → String
payload_or_empty p = if str_eq p "" then "{}" else p

-- `WHERE fingerprint = ? AND status = 'open'`
unfoldable pub open_with : String → Alert → Bool
open_with fp a = is_open a.status && str_eq a.fingerprint fp

newer : Alert → Option Alert → Option Alert
newer a none = some a
newer a (some b) = if ltb a.last_updated_at b.last_updated_at then some b else some a

-- The query of `GetOpenIncident`: the open row that was updated last.
unfoldable pub find_open : String → List Alert → Option Alert
unfolding newer open_with
find_open fp [] = none
find_open fp (a ∷ rows) =
    let rest = find_open fp rows in if open_with fp a then newer a rest else rest

unfoldable pub get_open_incident : String → Db → Option Alert
unfolding find_open
get_open_incident fp db = find_open fp db.alerts

-- `none` is the violation of the unique index on open fingerprints.
unfoldable pub open_incident : Alert → Db → Option (ℕ × Db)
unfolding payload_or_empty
open_incident a db =
    let row = record a { id = db.next_id; payload_summary = payload_or_empty a.payload_summary } in
    let inserted =
      some (db.next_id, record db { alerts = row ∷ db.alerts; next_id = suc db.next_id }) in
    if is_open a.status
    then elim (find_open a.fingerprint db.alerts) [ none ↦ inserted | some _ ↦ none ]
    else inserted

-- `UPDATE alerts SET … WHERE id = ?`
unfoldable pub update_row : ℕ → (Alert → Alert) → List Alert → List Alert
update_row i f [] = []
update_row i f (a ∷ rows) = (if a.id == i then f a else a) ∷ update_row i f rows

-- The columns that `UpdateIncident` writes, from `a` into the row `r`.
abbrev pub written : Alert → Alert → Alert
written a r = record r {
  severity = a.severity;
  status = a.status;
  affected_count = a.affected_count;
  last_updated_at = a.last_updated_at;
  last_notified_at = a.last_notified_at;
  auto_closed_at = a.auto_closed_at;
  payload_summary = payload_or_empty a.payload_summary;
}

unfoldable pub update_incident : Alert → Db → Db
unfolding update_row payload_or_empty
update_incident a db = record db { alerts = update_row a.id (written a) db.alerts }

abbrev pub closed : ℕ → Bool → Alert → Alert
closed at auto r =
    if auto
    then record r { status = closed_status; last_updated_at = at; auto_closed_at = some at }
    else record r { status = closed_status; last_updated_at = at }

unfoldable pub close_incident : ℕ → ℕ → Bool → Db → Db
unfolding update_row
close_incident i at auto db = record db { alerts = update_row i (closed at auto) db.alerts }

-- `ORDER BY last_updated_at DESC`
unfoldable pub insert_by_update : Alert → List Alert → List Alert
insert_by_update a [] = a ∷ []
insert_by_update a (b ∷ bs) =
    if ltb a.last_updated_at b.last_updated_at then b ∷ insert_by_update a bs else a ∷ b ∷ bs

unfoldable pub order_by_update : List Alert → List Alert
unfolding insert_by_update
order_by_update [] = []
order_by_update (a ∷ rows) = insert_by_update a (order_by_update rows)

unfoldable pub list_open_incidents : Db → List Alert
unfolding order_by_update
list_open_incidents db = order_by_update (keep (λ a. is_open a.status) db.alerts)

unfoldable pub is_member : ℕ → String → List (ℕ × String) → Bool
is_member i url [] = false
is_member i url ((j, u) ∷ ms) = if (j == i) && str_eq u url then true else is_member i url ms

-- `INSERT OR IGNORE`
unfoldable pub add_alert_member : ℕ → String → Db → Db
unfolding is_member
add_alert_member i url db =
    if is_member i url db.members then db else record db { members = (i, url) ∷ db.members }

pub delete_member : ℕ → String → List (ℕ × String) → List (ℕ × String)
delete_member i url [] = []
delete_member i url ((j, u) ∷ ms) =
    let rest = delete_member i url ms in if (j == i) && str_eq u url then rest else (j, u) ∷ rest

pub count_members : ℕ → List (ℕ × String) → ℕ
count_members i [] = 0
count_members i ((j, u) ∷ ms) = let rest = count_members i ms in if j == i then suc rest else rest

unfoldable pub count_alert_members : ℕ → Db → ℕ
unfolding count_members
count_alert_members i db = count_members i db.members

-- The delete and the count run in one transaction.
unfoldable pub remove_alert_member : ℕ → String → Db → ℕ × Db
unfolding delete_member count_members
remove_alert_member i url db =
    let ms = delete_member i url db.members in (count_members i ms, record db { members = ms })

-- The join of `HasOpenIncidentMember`: how many open rows of the fingerprint hold the URL.
open_member_rows : String → String → List (ℕ × String) → List Alert → ℕ
unfolding open_with is_member
open_member_rows fp url ms [] = 0
open_member_rows fp url ms (a ∷ rows) =
    let rest = open_member_rows fp url ms rows in
    if open_with fp a && is_member a.id url ms then suc rest else rest

unfoldable pub has_open_incident_member : String → String → Db → Bool
unfolding open_member_rows
has_open_incident_member fp url db = ltb 0 (open_member_rows fp url db.members db.alerts)
