-- ===== src/Alerts/Access/Gate.antt =====
-- What the access gate promises: what it answers, and which incidents it raises and resolves.
use rabbot_seo.Base.{
  ℕ, ◌≡◌, ◌≢◌, refl, ap, ◌∙◌, String, Bool, true, false, not, ◌&&◌, ◌||◌, Option, none, some, [],
  if◌then◌else◌, arith, str_eq, Option-cases, inl, inr,
}
use rabbot_seo.Base.Result
use rabbot_seo.Model.{FetchClass, ok}
use rabbot_seo.Store.Incidents.Rows.{IsWellFormed}
use rabbot_seo.Alerts.Pipeline.{Env, ingest, resolve}
use rabbot_seo.Alerts.Calls.{World, ◌>>=◌, pure}
use rabbot_seo.Alerts.Pipeline.Laws.{quiet, fp_of}
use rabbot_seo.Alerts.Pipeline.Tables.{affected}
use rabbot_seo.Alerts.Pipeline.Ingesting.{affected-ingest, ingest-IsWellFormed}
use rabbot_seo.Alerts.Pipeline.Resolving.{affected-resolve, resolve-IsWellFormed}
use rabbot_seo.Alerts.Pipeline.History.{ingest-quiet, resolve-quiet}
use rabbot_seo.Alerts.Access.{
  AccessContext, monitoring_blocked, monitoring_unreachable, operational_change_type, resolve_event,
  operational_event, handle_fetch_class,
}

abbrev pub is_ok : FetchClass → Bool
is_ok ok = true
is_ok _ = false

fetch_is_ok : (c : FetchClass) → operational_change_type c ≡ none → false ≡ not (is_ok c)
unfolding operational_change_type
fetch_is_ok c h = ground arith

fetch_is_bad :
    (c : FetchClass) (t : String) → operational_change_type c ≡ some t → true ≡ not (is_ok c)
unfolding operational_change_type
fetch_is_bad c t h = ground arith

quiet-id : (w : World) → w.faults ≡ [] → quiet w ≡ w
quiet-id w h = rw (← h) refl

pair_eq : {A B : Type 0} (p : A × B) (a : A) → p.0 ≡ a → p ≡ (a, p.1)
pair_eq (x, y) a h = rw h refl

module _ (env : Env) (now : ℕ) (ac : AccessContext) (w : World) where
  gate_raises :
      (change_type : String)
      → operational_change_type ac.fetch_class ≡ some change_type
      → handle_fetch_class env now ac (quiet w)
        ≡ (Result.ok true, (ingest env now (operational_event ac change_type) (quiet w)).1)
  unfolding handle_fetch_class ◌>>=◌ pure
  gate_raises change_type h =
      rw
        (
          h,
          pair_eq (ingest env now (operational_event ac change_type) (quiet w)) (Result.ok tt)
              (ingest-quiet env now (operational_event ac change_type) w).0,
        )
        refl

  abbrev unblocked : World
  unblocked = (resolve env now (resolve_event ac monitoring_blocked) (quiet w)).1

  abbrev reached : World
  reached = (resolve env now (resolve_event ac monitoring_unreachable) (quiet unblocked)).1

  gate_opens :
      operational_change_type ac.fetch_class ≡ none
      → handle_fetch_class env now ac (quiet w) ≡ (Result.ok false, reached)
  unfolding handle_fetch_class ◌>>=◌ pure
  gate_opens h =
      let e1 = resolve_event ac monitoring_blocked in
      let e2 = resolve_event ac monitoring_unreachable in
      let still = quiet-id unblocked (resolve-quiet env now e1 w).1 in
      rw (h, pair_eq (resolve env now e1 (quiet w)) (Result.ok tt) (resolve-quiet env now e1 w).0)
        (rw
          (
            ← still,
            pair_eq (resolve env now e2 (quiet unblocked)) (Result.ok tt)
                (resolve-quiet env now e2 unblocked).0,
          )
          refl)

  -- What the open incidents hold after the gate, given the operational change type.
  abbrev pub gate_affected : Option String → String → String → Bool
  gate_affected none k u =
      if (str_eq (fp_of env (resolve_event ac monitoring_blocked)) k
          || str_eq (fp_of env (resolve_event ac monitoring_unreachable)) k)
        && str_eq ac.url u
      then false
      else affected k u w.db
  gate_affected (some change_type) k u =
      if str_eq (fp_of env (operational_event ac change_type)) k && str_eq ac.url u
      then true
      else affected k u w.db

  -- In a quiet world, for a page with a URL, the access gate succeeds and tells the caller to skip
  -- its own events exactly if the fetch was not ok. An ok fetch takes the page from both operational
  -- incidents, any other adds it to the one of its class, and no other pair of an identity and a URL
  -- changes. The tables stay well-formed.
  pub gate_effect :
      ac.url ≢ ""
      → IsWellFormed w.db
      → let out = handle_fetch_class env now ac (quiet w) in
        (out.0 ≡ Result.ok (not (is_ok ac.fetch_class)))
        × ((k u : String)
            → affected k u out.1.db ≡ gate_affected (operational_change_type ac.fetch_class) k u)
        × IsWellFormed out.1.db
  gate_effect ne v = elim (Option-cases (operational_change_type ac.fetch_class)) [
    | inl opens ↦
        let e1 = resolve_event ac monitoring_blocked in
        let e2 = resolve_event ac monitoring_unreachable in
        let v1 = resolve-IsWellFormed env now e1 w v in
        rw (gate_opens opens, opens)
          (
            ap Result.ok (fetch_is_ok ac.fetch_class opens),
            (λ k u.
                affected-resolve env now e2 unblocked v1 k u
                ∙ rw (affected-resolve env now e1 w v k u) (ground arith)),
            resolve-IsWellFormed env now e2 unblocked v1,
          )
    | inr (change_type, raises) ↦
        let ev = operational_event ac change_type in
        rw (gate_raises change_type raises, raises)
          (
            ap Result.ok (fetch_is_bad ac.fetch_class change_type raises),
            (λ k u. affected-ingest env now ev w v k u ne),
            ingest-IsWellFormed env now ev w v,
          )
  ]
