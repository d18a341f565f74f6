-- ===== src/Verify/Check.antt =====
-- internal/verify/orchestrate.go and internal/store/verification.go: a check writes its record to the site's row.
use rabbot_seo.Base.{
  ℕ, String, Bool, false, ◌&&◌, ◌||◌, Option, none, some, List, [], ◌∷◌, ◌==◌, if◌then◌else◌,
}
use rabbot_seo.Verify.{Method, ProofRecord, Outcome, World, Options, attested, verify}

-- The proof records of the sites.
abbrev pub Sites : Type 0
Sites = List (ℕ × ProofRecord)

abbrev pub has_site : ℕ → Sites → Bool
has_site id [] = false
has_site id ((i, r) ∷ s) = (i == id) || has_site id s

abbrev pub written : ℕ → ProofRecord → Sites → Sites
written id r [] = []
written id r ((i, old) ∷ s) = (i, (if i == id then r else old)) ∷ written id r s

-- `none` is an error: a missing site, or a failed statement.
unfoldable pub save_verification : Bool → ℕ → ProofRecord → Sites → Option Sites
save_verification works id r s = if works && has_site id s then some (written id r s) else none

pub record CheckResult : Type 0 where
  pub sites : Sites
  pub outcome : Option Outcome

abbrev pub checked : Sites → Outcome → Option Sites → CheckResult
checked s o none = record { sites = s; outcome = none }
checked s o (some s') = record { sites = s'; outcome = some o }

unfoldable pub check : World → Options → Bool → ℕ → String → Method → Sites → CheckResult
unfolding verify save_verification
check w options works id host method s =
    let o = verify w options id host method in
    checked s o (save_verification works id o.record_of s)

abbrev pub attest : ℕ → Method → ℕ → ProofRecord
attest id method now = record {
  site_id = id;
  method = method;
  token = "";
  state = attested;
  verified_at = 0;
  last_reverified_at = now;
}
