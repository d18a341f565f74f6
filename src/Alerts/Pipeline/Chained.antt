-- ===== src/Alerts/Pipeline/Chained.antt =====
-- The calls of a handler, each with what comes after it, whatever fails.
use mathlib.Core.Path.{subst}
use rabbot_seo.Base.{
  ℕ, ◌≡◌, ◌≢◌, refl, String, Bool, true, false, not, ◌||◌, Option, some, List, [], ◌∷◌, arith,
  str_eq, eq_iff,
}
use rabbot_seo.Base.Result.{Result, ok, err}
use rabbot_seo.Model.{Alert}
use rabbot_seo.Notify.{NotifyAlert, route}
use rabbot_seo.Alerts.Throttle.{allow}
use rabbot_seo.Store.Incidents
use rabbot_seo.Store.Incidents.{Db}
use rabbot_seo.Alerts.Event.{Event}
use rabbot_seo.Alerts.Calls.{
  Error, store_failed, unique_violation, notify_failed, World, Action, ◌>>=◌, get_open_incident,
  open_incident, update_incident, close_incident, remove_alert_member, notify, dispatch_to,
  first_error, add_alert_member, attempt, write_db, read_db, insert_alert,
}
use rabbot_seo.Alerts.Pipeline.{Env, add_member, maybe_dispatch, to_notify_alert, throttle_key}
use rabbot_seo.Alerts.Pipeline.Laws.{member_db}

abbrev pub is_success : {A : Type 0} → Result Error A → Bool
is_success (ok a) = true
is_success (err e) = false

-- The error of the unique index on open fingerprints.
abbrev pub collides : {A : Type 0} → Result Error A → Bool
collides (err unique_violation) = true
collides _ = false

add_named : (i : ℕ) (u : String) → u ≢ "" → add_member i u ≡ add_alert_member i u
unfolding add_member
add_named i u named =
    let some_url : str_eq u "" ≡ false = ground (arith, eq_iff u "") in rw some_url refl

member_named :
    (i : ℕ) (u : String) (db : Db) → u ≢ "" → member_db i u db ≡ Incidents.add_alert_member i u db
member_named i u db named =
    let some_url : str_eq u "" ≡ false = ground (arith, eq_iff u "") in rw some_url refl

insert_there :
    (a : Alert) (w : World) (i : ℕ) (db : Db)
    → Incidents.open_incident a w.db ≡ some (i, db)
    → insert_alert a w ≡ (ok i, record w { db = db })
unfolding insert_alert
insert_there a w i db opens = rw (insert_alert, opens) refl

-- A call that may fail, and what comes after it.
module _ {ℓ} {B : Type 0} (P : Result Error B × World → Type ℓ) where
  pub get-then :
      (fp : String) (f : Option Alert → Action B) (w : World)
      → ((fs : List Bool) → P (err store_failed, record w { faults = fs }))
      → ((fs : List Bool) → P (f (Incidents.get_open_incident fp w.db) (record w { faults = fs })))
      → P ((get_open_incident fp >>= f) w)
  unfolding get_open_incident attempt read_db ◌>>=◌
  get-then fp f w lost done =
      elim w.faults as (λ fs. P ((get_open_incident fp >>= f) (record w { faults = fs }))) [
        | [] ↦ done []
        | true ∷ later ↦ lost later
        | false ∷ later ↦ done later
      ]

  add_alert-then :
      (i : ℕ) (u : String) (f : Unit {0} → Action B) (w : World)
      → ((fs : List Bool) → P (err store_failed, record w { faults = fs }))
      → ((fs : List Bool)
          → P (f tt (record w { db = Incidents.add_alert_member i u w.db; faults = fs })))
      → P ((add_alert_member i u >>= f) w)
  unfolding add_alert_member attempt write_db ◌>>=◌
  add_alert-then i u f w lost done =
      elim w.faults as (λ fs. P ((add_alert_member i u >>= f) (record w { faults = fs }))) [
        | [] ↦ done []
        | true ∷ later ↦ lost later
        | false ∷ later ↦ done later
      ]

  pub add-then :
      (i : ℕ) (u : String) (f : Unit {0} → Action B) (w : World)
      → u ≢ ""
      → ((fs : List Bool) → P (err store_failed, record w { faults = fs }))
      → ((fs : List Bool) → P (f tt (record w { db = member_db i u w.db; faults = fs })))
      → P ((add_member i u >>= f) w)
  add-then i u f w named lost done = rw (add_named i u named) (
      add_alert-then i u f w lost (λ fs.
        subst (λ d. P (f tt (record w { db = d; faults = fs }))) (member_named i u w.db named)
          (done fs)))

  pub open-then :
      (a : Alert) (f : ℕ → Action B) (w : World) (i : ℕ) (db : Db)
      → Incidents.open_incident a w.db ≡ some (i, db)
      → ((fs : List Bool) → P (err store_failed, record w { faults = fs }))
      → ((fs : List Bool) → P (f i (record w { db = db; faults = fs })))
      → P ((open_incident a >>= f) w)
  unfolding open_incident attempt ◌>>=◌
  open-then a f w i db opens lost done =
      elim w.faults as (λ fs. P ((open_incident a >>= f) (record w { faults = fs }))) [
        | [] ↦ rw (insert_there a (record w { faults = [] }) i db opens) (done [])
        | true ∷ later ↦ lost later
        | false ∷ later ↦ rw (insert_there a (record w { faults = later }) i db opens) (done later)
      ]

  pub update-then :
      (a : Alert) (f : Unit {0} → Action B) (w : World)
      → ((fs : List Bool) → P (err store_failed, record w { faults = fs }))
      → ((fs : List Bool)
          → P (f tt (record w { db = Incidents.update_incident a w.db; faults = fs })))
      → P ((update_incident a >>= f) w)
  unfolding update_incident attempt write_db ◌>>=◌
  update-then a f w lost done =
      elim w.faults as (λ fs. P ((update_incident a >>= f) (record w { faults = fs }))) [
        | [] ↦ done []
        | true ∷ later ↦ lost later
        | false ∷ later ↦ done later
      ]

  pub remove-then :
      (i : ℕ) (u : String) (f : ℕ → Action B) (w : World)
      → ((fs : List Bool) → P (err store_failed, record w { faults = fs }))
      → ((fs : List Bool)
          → P (
              f
                (Incidents.remove_alert_member i u w.db).0
                (record w { db = (Incidents.remove_alert_member i u w.db).1; faults = fs })))
      → P ((remove_alert_member i u >>= f) w)
  unfolding remove_alert_member attempt ◌>>=◌
  remove-then i u f w lost done =
      elim w.faults as (λ fs. P ((remove_alert_member i u >>= f) (record w { faults = fs }))) [
        | [] ↦ done []
        | true ∷ later ↦ lost later
        | false ∷ later ↦ done later
      ]

pub update-last :
    (P : Result Error (Unit {0}) × World → Type 0) (a : Alert) (w : World)
    → ((fs : List Bool) → P (err store_failed, record w { faults = fs }))
    → ((fs : List Bool)
        → P (ok tt, record w { db = Incidents.update_incident a w.db; faults = fs }))
    → P (update_incident a w)
unfolding update_incident attempt write_db ◌>>=◌
update-last P a w lost done =
    elim w.faults as (λ fs. P (update_incident a (record w { faults = fs }))) [
      | [] ↦ done []
      | true ∷ later ↦ lost later
      | false ∷ later ↦ done later
    ]

-- A write happens, or it fails and changes nothing.
pub close_incident-db {ℓ} :
    (P : Db → Type ℓ) (i at : ℕ) (auto : Bool) (w : World)
    → P w.db
    → P (Incidents.close_incident i at auto w.db)
    → P (close_incident i at auto w).1.db
unfolding close_incident attempt ◌>>=◌
close_incident-db P i at auto w h k =
    elim w.faults as (λ fs. P (close_incident i at auto (record w { faults = fs })).1.db) [
      | [] ↦ k
      | true ∷ later ↦ h
      | false ∷ later ↦ k
    ]

-- Deliveries fail only as deliveries.
notify-collides : (n : String) (a : NotifyAlert) (w : World) → collides (notify n a w).0 ≡ false
unfolding notify attempt ◌>>=◌
notify-collides n a w =
    elim w.faults as (λ fs. collides (notify n a (record w { faults = fs })).0 ≡ false) [
      | [] ↦ refl
      | true ∷ later ↦ refl
      | false ∷ later ↦ refl
    ]

first_error-collides :
    (r rest : Result Error (Unit {0}))
    → collides r ≡ false
    → collides rest ≡ false
    → collides (first_error r rest) ≡ false
unfolding first_error
first_error-collides (ok x) rest h k = k
first_error-collides (err store_failed) rest h k = refl
first_error-collides (err unique_violation) rest h k = h
first_error-collides (err notify_failed) rest h k = refl

dispatch_to-collides :
    (ns : List String) (a : NotifyAlert) (w : World) → collides (dispatch_to ns a w).0 ≡ false
unfolding dispatch_to
dispatch_to-collides [] a w = refl
dispatch_to-collides (n ∷ ns) a w =
    first_error-collides (notify n a w).0 (dispatch_to ns a (notify n a w).1).0
      (notify-collides n a w) (dispatch_to-collides ns a (notify n a w).1)

pub maybe_dispatch-collides :
    (env : Env) (e : Event) (inc : Alert) (now : ℕ) (w : World)
    → collides (maybe_dispatch env e inc now w).0 ≡ false
unfolding maybe_dispatch
maybe_dispatch-collides env e inc now w =
    let na = to_notify_alert e inc now in
    let w' = record w { throttle = (allow w.throttle (throttle_key env e na) e.severity now).0 } in
    ground (arith, dispatch_to-collides (route env.registry na) na w')

pub marked_or_failed : {A : Type 0} (r : Result Error A) → (not (is_success r) || true) ≡ true
marked_or_failed (ok a) = refl
marked_or_failed (err e) = refl
