-- ===== src/Alerts/AutoClose/Sweep.antt =====
-- What the sweep leaves open.
use rabbot_seo.Base.{
  ℕ, ◌≤◌, ◌≡◌, refl, ◌∙◌, String, Bool, true, false, ◌&&◌, Option, none, some, List, [], ◌∷◌, ◌==◌,
  if◌then◌else◌, arith, eq_iff, Option-cases, Bool-cases, inl, inr, keep,
}
use rabbot_seo.Base.Result.{ok}
use rabbot_seo.Model.{Alert, is_open}
use rabbot_seo.Store.Incidents
use rabbot_seo.Store.Incidents.{
  Db, open_with, find_open, update_row, closed, order_by_update, insert_by_update,
}
use rabbot_seo.Store.Incidents.Rows.{
  Below, OpenUnique, IsWellFormed, find_open-id_lt, find_open-head,
}
use rabbot_seo.Store.Incidents.Statements.{close_incident-IsWellFormed}
use rabbot_seo.Alerts.Calls.{World, ◌>>=◌, pure, attempt, read_db, close_incident}
use rabbot_seo.Alerts.Pipeline.{Env}
use rabbot_seo.Alerts.Pipeline.Laws.{quiet}
use rabbot_seo.Alerts.AutoClose.{is_stale, list_open_incidents, close_stale, auto_close_stale}

abbrev without : ℕ → Option Alert → Option Alert
without i none = none
without i (some c) = if c.id == i then none else some c

-- Closing a row takes the open incident of a fingerprint away exactly if it is that row.
find_open-close :
    (k : String) (i at n : ℕ) (auto : Bool) (rows : List Alert)
    → Below n rows
    → OpenUnique rows
    → find_open k (update_row i (closed at auto) rows) ≡ without i (find_open k rows)
unfolding find_open update_row
find_open-close k i at n auto [] b u = refl
find_open-close k i at n auto (a ∷ rows) b u = elim (Bool-cases (open_with k a)) [
  | inl hit ↦ ground (
    arith,
    find_open-head k a rows u hit,
    find_open-close k i at a.id auto rows b.1 u.1,
    eq_iff a.fingerprint k,
  )
  | inr miss ↦ ground (arith, find_open-close k i at a.id auto rows b.1 u.1)
]

-- Whether the sweep closes the row with an id.
abbrev sweeps : Env → ℕ → ℕ → List Alert → Bool
sweeps env now i [] = false
sweeps env now i (a ∷ rows) =
    if (a.id == i) && is_stale env now a then true else sweeps env now i rows

sweeps-insert :
    (env : Env) (now i : ℕ) (a : Alert) (rows : List Alert)
    → sweeps env now i (insert_by_update a rows) ≡ sweeps env now i (a ∷ rows)
unfolding insert_by_update
sweeps-insert env now i a [] = refl
sweeps-insert env now i a (b ∷ bs) = ground (arith, sweeps-insert env now i a bs)

sweeps-order :
    (env : Env) (now i : ℕ) (rows : List Alert)
    → sweeps env now i (order_by_update rows) ≡ sweeps env now i rows
unfolding order_by_update
sweeps-order env now i [] = refl
sweeps-order env now i (a ∷ rows) =
    sweeps-insert env now i a (order_by_update rows) ∙ ground (arith, sweeps-order env now i rows)

sweeps-below :
    (env : Env) (now i n : ℕ) (rows : List Alert)
    → Below n rows
    → n ≤ i
    → sweeps env now i (keep (λ a. is_open a.status) rows) ≡ false
sweeps-below env now i n [] b h = refl
sweeps-below env now i n (a ∷ rows) b h = ground (arith, sweeps-below env now i a.id rows b.1)

sweeps-found :
    (env : Env) (now n : ℕ) (k : String) (rows : List Alert) (c : Alert)
    → Below n rows
    → OpenUnique rows
    → find_open k rows ≡ some c
    → sweeps env now c.id (keep (λ a. is_open a.status) rows) ≡ is_stale env now c
unfolding find_open
sweeps-found env now n k [] c b u h = cc
sweeps-found env now n k (a ∷ rows) c b u h = elim (Bool-cases (open_with k a)) [
  | inl hit ↦ ground (arith, find_open-head k a rows u hit, sweeps-below env now a.id a.id rows b.1)
  | inr miss ↦
      ground (arith, find_open-id_lt k a.id rows c b.1, sweeps-found env now a.id k rows c b.1 u.1)
]

-- The tables after the closings.
swept : Env → ℕ → List Alert → Db → Db
swept env now [] db = db
swept env now (a ∷ rows) db =
    let rest = swept env now rows (Incidents.close_incident a.id now true db) in
    let kept = swept env now rows db in if is_stale env now a then rest else kept

close_stale-swept :
    (env : Env) (now : ℕ) (rows : List Alert) (w : World)
    → close_stale env now rows (quiet w)
      ≡ (ok tt, record w { db = swept env now rows w.db; faults = [] })
unfolding close_stale swept close_incident attempt ◌>>=◌ pure
close_stale-swept env now [] w = refl
close_stale-swept env now (a ∷ rows) w = elim (Bool-cases (is_stale env now a)) [
  | inl stale ↦ rw stale (
      close_stale-swept env now rows
        (record w { db = Incidents.close_incident a.id now true w.db }))
  | inr recent ↦ rw recent (close_stale-swept env now rows w)
]

swept-IsWellFormed :
    (env : Env) (now : ℕ) (rows : List Alert) (db : Db)
    → IsWellFormed db
    → IsWellFormed (swept env now rows db)
unfolding swept
swept-IsWellFormed env now [] db v = v
swept-IsWellFormed env now (a ∷ rows) db v = elim (Bool-cases (is_stale env now a)) [
  | inl stale ↦ rw stale (
      swept-IsWellFormed env now rows (Incidents.close_incident a.id now true db)
        (close_incident-IsWellFormed a.id now true db v))
  | inr recent ↦ rw recent (swept-IsWellFormed env now rows db v)
]

abbrev spared : Env → ℕ → List Alert → Option Alert → Option Alert
spared env now rows none = none
spared env now rows (some c) = if sweeps env now c.id rows then none else some c

spared-cons :
    (env : Env) (now : ℕ) (a : Alert) (rows : List Alert) (o : Option Alert)
    → is_stale env now a ≡ true
    → spared env now rows (without a.id o) ≡ spared env now (a ∷ rows) o
spared-cons env now a rows none h = refl
spared-cons env now a rows (some c) h = ground arith

spared-skip :
    (env : Env) (now : ℕ) (a : Alert) (rows : List Alert) (o : Option Alert)
    → is_stale env now a ≡ false
    → spared env now rows o ≡ spared env now (a ∷ rows) o
spared-skip env now a rows none h = refl
spared-skip env now a rows (some c) h = ground arith

spared-none : (env : Env) (now : ℕ) (o : Option Alert) → o ≡ spared env now [] o
spared-none env now none = refl
spared-none env now (some c) = refl

get-close_any :
    (k : String) (i at : ℕ) (db : Db)
    → IsWellFormed db
    → Incidents.get_open_incident k (Incidents.close_incident i at true db)
      ≡ without i (Incidents.get_open_incident k db)
unfolding Incidents.get_open_incident Incidents.close_incident
get-close_any k i at db v = find_open-close k i at db.next_id true db.alerts v.fresh v.unique

get-swept :
    (env : Env) (now : ℕ) (k : String) (rows : List Alert) (db : Db)
    → IsWellFormed db
    → Incidents.get_open_incident k (swept env now rows db)
      ≡ spared env now rows (Incidents.get_open_incident k db)
unfolding swept Incidents.get_open_incident
get-swept env now k [] db v = spared-none env now (Incidents.get_open_incident k db)
get-swept env now k (a ∷ rows) db v = elim (Bool-cases (is_stale env now a)) [
  | inl stale ↦
      let next = Incidents.close_incident a.id now true db in
      rw stale (
        get-swept env now k rows next (close_incident-IsWellFormed a.id now true db v)
        ∙ rw (get-close_any k a.id now db v)
            (spared-cons env now a rows (Incidents.get_open_incident k db) stale))
  | inr recent ↦ rw recent (
      get-swept env now k rows db v
      ∙ spared-skip env now a rows (Incidents.get_open_incident k db) recent)
]

-- An open incident that was updated within the time.
abbrev pub still_open : Env → ℕ → Option Alert → Option Alert
still_open env now none = none
still_open env now (some c) = if is_stale env now c then none else some c

spared-listed :
    (env : Env) (now : ℕ) (k : String) (db : Db)
    → IsWellFormed db
    → spared env now (Incidents.list_open_incidents db) (Incidents.get_open_incident k db)
      ≡ still_open env now (Incidents.get_open_incident k db)
unfolding Incidents.get_open_incident Incidents.list_open_incidents
spared-listed env now k db v = elim (Option-cases (find_open k db.alerts)) [
  | inl absent ↦ rw absent refl
  | inr (c, found) ↦
      rw
        (
          found,
          sweeps-order env now c.id (keep (λ a. is_open a.status) db.alerts),
          sweeps-found env now db.next_id k db.alerts c v.fresh v.unique found,
        )
        refl
]

-- In a quiet world, from well-formed tables, the sweep succeeds and closes exactly the open incidents
-- that were not updated for the auto-close time or longer; every other one stays as it is, and the
-- tables stay well-formed.
pub sweep_closes_stale :
    (env : Env) (now : ℕ) (w : World)
    → IsWellFormed w.db
    → let out = auto_close_stale env now (quiet w) in
      (out.0 ≡ ok tt)
      × IsWellFormed out.1.db
      × ((k : String)
          → Incidents.get_open_incident k out.1.db
            ≡ still_open env now (Incidents.get_open_incident k w.db))
unfolding auto_close_stale list_open_incidents attempt read_db ◌>>=◌
sweep_closes_stale env now w v =
    let rows = Incidents.list_open_incidents w.db in
    rw (close_stale-swept env now rows w) (
      refl,
      swept-IsWellFormed env now rows w.db v,
      λ k. get-swept env now k rows w.db v ∙ spared-listed env now k w.db v,
    )
