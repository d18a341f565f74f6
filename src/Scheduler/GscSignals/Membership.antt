-- ===== src/Scheduler/GscSignals/Membership.antt =====
-- What a signal does to the members of the open incidents, in a quiet world.
use mathlib.Core.Path.{subst}
use rabbot_seo.Base.{
  ℕ, ◌≡◌, ◌≢◌, refl, ◌∙◌, String, Bool, true, false, ◌&&◌, Option, none, some, [], if◌then◌else◌,
  str_eq, eq_iff, arith, Bool-cases, inl, inr,
}
use rabbot_seo.Base.Result.{ok}
use rabbot_seo.Store.Incidents.Rows.{IsWellFormed}
use rabbot_seo.Alerts.Event.{group_fingerprint, fingerprint, fingerprint_input}
use rabbot_seo.Alerts.Pipeline.{Env, ingest, resolve, has_open_member}
use rabbot_seo.Alerts.Calls.{World, ◌>>=◌, pure}
use rabbot_seo.Alerts.Pipeline.Laws.{quiet, fp_of, has_open_member-quiet}
use rabbot_seo.Alerts.Pipeline.Tables.{affected}
use rabbot_seo.Alerts.Pipeline.Ingesting.{affected-ingest, ingest-IsWellFormed}
use rabbot_seo.Alerts.Pipeline.Resolving.{affected-resolve, resolve-IsWellFormed}
use rabbot_seo.Alerts.Pipeline.History.{ingest-quiet, resolve-quiet}
use rabbot_seo.Scheduler.GscSignals.{
  Site, probe, firing, clearing, ingest_on_state_change, resolve_signal, resolve_if_open,
}
use rabbot_seo.Scheduler.GscSignals.Decisions.{
  Decision, skips, clears_if_open, fails, fires, clears, says, act,
}

pub record IsCalm (w : World) : Type 0 where
  pub quiet_world : w.faults ≡ []
  pub tables : IsWellFormed w.db

pub quiet-eq : (w : World) → w.faults ≡ [] → quiet w ≡ w
quiet-eq w h = rw (← h) refl

-- The word on a pair of an identity and a URL, if it is the pair that the word is about.
abbrev pub marked : String → String → Option Bool → String → String → Bool → Bool
marked k url none k' u old = old
marked k url (some b) k' u old = if str_eq k k' && str_eq url u then b else old

-- The identity of the incident of a site's signal.
abbrev pub incident_of : Env → Site → String → String
incident_of env site t = fp_of env (probe site "" t)

module _ (env : Env) (now : ℕ) (site : Site) (url t : String) where
  abbrev incident : String
  incident = incident_of env site t

  same_probe : fp_of env (probe site url t) ≡ incident
  unfolding group_fingerprint fingerprint fingerprint_input
  same_probe = refl

  same_firing : (id : ℕ) (b a : String) → fp_of env (firing site url id t b a) ≡ incident
  unfolding group_fingerprint fingerprint fingerprint_input
  same_firing id b a = refl

  same_clearing : (id : ℕ) → fp_of env (clearing site url t id) ≡ incident
  unfolding group_fingerprint fingerprint fingerprint_input
  same_clearing id = refl

  -- The world after an act, from the world before.
  abbrev pub Effect : Option Bool → World → World → Type 0
  Effect word w w' =
      IsCalm w'
      × ((k u : String) → affected k u w'.db ≡ marked incident url word k u (affected k u w.db))

  fire-Effect :
      (id : ℕ) (b a : String) (w : World)
      → IsCalm w
      → url ≢ ""
      → Effect (some true) w (ingest env now (firing site url id t b a) w).1
  fire-Effect id b a w c ne =
      let e = firing site url id t b a in
      subst (λ x. Effect (some true) w (ingest env now e x).1) (quiet-eq w c.quiet_world)
        (
          record {
            quiet_world = (ingest-quiet env now e w).1;
            tables = ingest-IsWellFormed env now e w c.tables;
          },
          (λ k u. affected-ingest env now e w c.tables k u ne ∙ rw (same_firing id b a) refl),
        )

  clear-Effect :
      (id : ℕ) (w : World)
      → IsCalm w
      → Effect (some false) w (resolve_signal env now site url t id w).1
  unfolding resolve_signal
  clear-Effect id w c =
      let e = clearing site url t id in
      subst (λ x. Effect (some false) w (resolve env now e x).1) (quiet-eq w c.quiet_world)
        (
          record {
            quiet_world = (resolve-quiet env now e w).1;
            tables = resolve-IsWellFormed env now e w c.tables;
          },
          (λ k u. affected-resolve env now e w c.tables k u ∙ rw (same_clearing id) refl),
        )

  pub open_member :
      (w : World)
      → IsCalm w
      → url ≢ ""
      → has_open_member env (probe site url t) w ≡ (ok (affected incident url w.db), w)
  open_member w c ne =
      subst (λ x. has_open_member env (probe site url t) x ≡ (ok (affected incident url w.db), x))
        (quiet-eq w c.quiet_world)
        (has_open_member-quiet env (probe site url t) w ne ∙ rw same_probe refl)

  -- A word that agrees with the tables changes nothing.
  agrees :
      (b : Bool) (w : World)
      → affected incident url w.db ≡ b
      → (k u : String) → affected k u w.db ≡ marked incident url (some b) k u (affected k u w.db)
  agrees b w h k u = ground (arith, eq_iff incident k, eq_iff url u)

  pub act-Effect :
      (d : Decision) (w : World)
      → IsCalm w
      → url ≢ ""
      → Effect (says d) w (act env now site url t d w).1
  unfolding ingest_on_state_change resolve_if_open pure ◌>>=◌
  act-Effect skips w c ne = (c, (λ k u. refl))
  act-Effect (fails e) w c ne = (c, (λ k u. refl))
  act-Effect (clears id) w c ne = clear-Effect id w c
  act-Effect (fires id b a) w c ne = elim (Bool-cases (affected incident url w.db)) [
    | inl steady ↦ rw (open_member w c ne, steady) (c, agrees true w steady)
    | inr new ↦ rw (open_member w c ne, new) (fire-Effect id b a w c ne)
  ]
  act-Effect clears_if_open w c ne = elim (Bool-cases (affected incident url w.db)) [
    | inl stale ↦ rw (open_member w c ne, stale) (clear-Effect 0 w c)
    | inr gone ↦ rw (open_member w c ne, gone) (c, agrees false w gone)
  ]
