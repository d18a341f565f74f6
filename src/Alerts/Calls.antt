-- ===== src/Alerts/Calls.antt =====
-- internal/alerts/pipeline.go: the calls that the handlers make out of the process, to the
-- `IncidentStore` and to the notifiers, as actions on a world. What was written before an error
-- stays written. `Dispatcher.Dispatch` is that of internal/notify/registry.go.
use rabbot_seo.Base.{ℕ, String, Bool, true, false, Option, none, some, List, [], ◌∷◌}
use rabbot_seo.Base.Result.{Result, ok, err}
use rabbot_seo.Model.{Alert}
use rabbot_seo.Notify.{NotifyAlert}
use rabbot_seo.Store.Incidents
use rabbot_seo.Store.Incidents.{Db}
use rabbot_seo.Alerts.Throttle.{Throttle}

pub data Error : Type 0 where
  store_failed unique_violation notify_failed : Error

-- `faults` says of each coming call out of the process whether it fails; the empty list is a quiet
-- world.
pub record World : Type 0 where
  pub db : Db
  pub throttle : Throttle
  pub digest : List NotifyAlert
  pub sent : List (String × NotifyAlert)
  pub faults : List Bool

abbrev pub Action : Type 0 → Type 0
Action A = World → Result Error A × World

abbrev pub continue : {A B : Type 0} → Result Error A → (A → Action B) → Action B
continue (ok a) f w = f a w
continue (err e) f w = (err e, w)

infixl 5 ◌>>=◌ ◌>>◌
unfoldable pub ◌>>=◌ : {A B : Type 0} → Action A → (A → Action B) → Action B
◌>>=◌ m f w = let (r, w') = m w in continue r f w'

abbrev pub ◌>>◌ : {A B : Type 0} → Action A → Action B → Action B
m >> n = m >>= λ _. n

unfoldable pub pure : {A : Type 0} → A → Action A
pure a w = (ok a, w)

-- One call out of the process.
unfoldable pub attempt : Error → Action (Unit {0})
attempt e w = elim w.faults [
  | [] ↦ (ok tt, w)
  | true ∷ later ↦ (err e, record w { faults = later })
  | false ∷ later ↦ (ok tt, record w { faults = later })
]

unfoldable pub read_db : {A : Type 0} → (Db → A) → Action A
read_db f w = (ok (f w.db), w)

unfoldable pub write_db : (Db → Db) → Action (Unit {0})
write_db f w = (ok tt, record w { db = f w.db })

-- The calls of `IncidentStore`.
unfoldable pub get_open_incident : String → Action (Option Alert)
unfolding attempt read_db
get_open_incident fp = do attempt store_failed; read_db (Incidents.get_open_incident fp)

unfoldable pub insert_alert : Alert → Action ℕ
insert_alert a w = elim (Incidents.open_incident a w.db) [
  | none ↦ (err unique_violation, w)
  | some (i, db) ↦ (ok i, record w { db = db })
]

unfoldable pub open_incident : Alert → Action ℕ
unfolding attempt insert_alert
open_incident a = do attempt store_failed; insert_alert a

unfoldable pub update_incident : Alert → Action (Unit {0})
unfolding attempt write_db
update_incident a = do attempt store_failed; write_db (Incidents.update_incident a)

unfoldable pub close_incident : ℕ → ℕ → Bool → Action (Unit {0})
unfolding attempt write_db
close_incident i at auto = do attempt store_failed; write_db (Incidents.close_incident i at auto)

unfoldable pub add_alert_member : ℕ → String → Action (Unit {0})
unfolding attempt write_db
add_alert_member i url = do attempt store_failed; write_db (Incidents.add_alert_member i url)

unfoldable pub remove_alert_member : ℕ → String → Action ℕ
unfolding attempt
remove_alert_member i url = do
  attempt store_failed
  λ w.
      let (remaining, db) = Incidents.remove_alert_member i url w.db in
      (ok remaining, record w { db = db })

unfoldable pub has_open_incident_member : String → String → Action Bool
unfolding attempt read_db
has_open_incident_member fp url = do
  attempt store_failed
  read_db (Incidents.has_open_incident_member fp url)

-- `Notifier.Notify`, and `Dispatcher.Dispatch` over the notifiers of the route: each has its turn,
-- and the first error is the result.
unfoldable pub notify : String → NotifyAlert → Action (Unit {0})
unfolding attempt
notify n a = do attempt notify_failed; λ w. (ok tt, record w { sent = (n, a) ∷ w.sent })

unfoldable pub first_error :
    Result Error (Unit {0}) → Result Error (Unit {0}) → Result Error (Unit {0})
first_error (ok _) r = r
first_error (err e) r = err e

unfoldable pub dispatch_to : List String → NotifyAlert → Action (Unit {0})
unfolding first_error notify
dispatch_to [] a w = (ok tt, w)
dispatch_to (n ∷ ns) a w =
    let (r, w') = notify n a w in let (rest, w'') = dispatch_to ns a w' in (first_error r rest, w'')
