-- ===== src/Examples/Identity.antt =====
-- A hash that tells inputs apart, and the identity of incidents under it; faults and the sweep.
use Prim.Native.Char.{char}
use rabbot_seo.Base.{
  ℕ, zero, suc, ◌≡◌, ◌≢◌, ◌↔◌, refl, ap, String, true, false, List, [], ◌∷◌, codes,
}
use rabbot_seo.Base.Result.{ok}
use rabbot_seo.Model.{critical}
use rabbot_seo.Store.Incidents
use rabbot_seo.Store.Incidents.Rows.{IsWellFormed}
use rabbot_seo.Alerts.Event.{group_fingerprint}
use rabbot_seo.Alerts.Event.Identity
use rabbot_seo.Alerts.Pipeline.{ingest, resolve}
use rabbot_seo.Alerts.Pipeline.Laws.{quiet, fp_of}
use rabbot_seo.Alerts.Calls.{World}
use rabbot_seo.Alerts.Pipeline.Marking
use rabbot_seo.Alerts.Pipeline.Marking.{Marks}
use rabbot_seo.Alerts.Pipeline.Clearing
use rabbot_seo.Alerts.Pipeline.Clearing.{Clears}
use rabbot_seo.Alerts.AutoClose.{auto_close_stale}
use rabbot_seo.Alerts.AutoClose.Sweep
use rabbot_seo.Alerts.AutoClose.Sweep.{still_open}
use rabbot_seo.Examples.Alerts.{env, event, open_world, open_world-IsWellFormed, named}

-- A number in strokes, with a mark at its end.
strokes : ℕ → String → String
strokes zero s = String.◌∷◌ (char 1 tt) s
strokes (suc n) s = String.◌∷◌ (char 2 tt) (strokes n s)

unary : List ℕ → String
unfolding strokes
unary [] = ""
unary (n ∷ ns) = strokes n (unary ns)

strokes_injective :
    (m n : ℕ) (s t : String)
    → codes (strokes m s) ≡ codes (strokes n t)
    → (m ≡ n) × (codes s ≡ codes t)
unfolding strokes
strokes_injective zero zero s t h = (refl, cc)
strokes_injective zero (suc n) s t h = cc
strokes_injective (suc m) zero s t h = cc
strokes_injective (suc m) (suc n) s t h =
    let (same, rest) = strokes_injective m n s t cc in (ap suc same, rest)

strokes_nonempty : (n : ℕ) (s : String) → codes (strokes n s) ≢ []
unfolding strokes
strokes_nonempty zero s h = cc
strokes_nonempty (suc n) s h = cc

unary-codes : (xs ys : List ℕ) → codes (unary xs) ≡ codes (unary ys) → xs ≡ ys
unfolding unary
unary-codes [] [] h = refl
unary-codes [] (y ∷ ys) h = absurd (strokes_nonempty y (unary ys) cc)
unary-codes (x ∷ xs) [] h = absurd (strokes_nonempty x (unary xs) h)
unary-codes (x ∷ xs) (y ∷ ys) h =
    let (same, rest) = strokes_injective x y (unary xs) (unary ys) h in
    let behind = unary-codes xs ys rest in cc

unary_injective : (xs ys : List ℕ) → unary xs ≡ unary ys → xs ≡ ys
unary_injective xs ys h = unary-codes xs ys (ap codes h)

same_incident_iff_example :
    (group_fingerprint unary (event "/a" critical) ≡ group_fingerprint unary (event "/b" critical))
    ↔ (((event "/a" critical).site ≡ (event "/b" critical).site)
        × ((event "/a" critical).change_type ≡ (event "/b" critical).change_type)
        × (critical ≡ critical))
same_incident_iff_example =
    Identity.same_incident_iff unary unary_injective (event "/a" critical) (event "/b" critical)
      refl refl refl refl

-- Three calls in, the database fails.
abbrev faulty : World
faulty = record open_world { faults = false ∷ false ∷ true ∷ [] }

ingest-Marks_example :
    Marks
      (fp_of env (event "/c" critical))
      "/c"
      faulty.db
      (ingest env 9000 (event "/c" critical) faulty)
ingest-Marks_example =
    Marking.ingest-Marks env 9000 (event "/c" critical) faulty open_world-IsWellFormed
      (named "/c" refl)

resolve-Clears_example :
    Clears
      (fp_of env (event "/a" critical))
      "/a"
      faulty.db
      (resolve env 9000 (event "/a" critical) faulty)
resolve-Clears_example =
    Clearing.resolve-Clears env 9000 (event "/a" critical) faulty open_world-IsWellFormed

sweep_closes_stale_example :
    let out = auto_close_stale env 100000 (quiet open_world) in
    (out.0 ≡ ok tt)
    × IsWellFormed out.1.db
    × ((k : String)
        → Incidents.get_open_incident k out.1.db
          ≡ still_open env 100000 (Incidents.get_open_incident k open_world.db))
sweep_closes_stale_example = Sweep.sweep_closes_stale env 100000 open_world open_world-IsWellFormed
