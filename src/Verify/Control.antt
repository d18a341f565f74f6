-- ===== src/Verify/Control.antt =====
-- A site becomes verified exactly if its surface shows this instance's token for it.
use rabbot_seo.Base.{
  ℕ, ◌≡◌, refl, ◌∙◌, ap, String, Bool, true, false, ◌&&◌, Option, none, some, List, [], ◌∷◌, ◌==◌,
  if◌then◌else◌, str_eq, ◌<>◌, arith, Bool-cases, inl, inr,
}
use rabbot_seo.Verify.{
  verified, throttled, Method, well_known, dns, meta, other_method, found, not_found, mismatch,
  redirected, unreachable, ProofRecord, World, Options, well_known_path, Answer, canonical_host,
  base_url, derive_token, verify_well_known, verify_meta, verify_dns, ask, attempt, judged,
  verify_keyed, verify,
}
use rabbot_seo.Verify.Check.{Sites, has_site, written, save_verification, check}
use rabbot_seo.Verify.Surfaces.{
  proves, file_shows, home_shows, domain_shows, file-shows, home-shows, domain-shows,
  append_nonempty,
}

module _ (w : World) (options : Options) where
  abbrev pub shows : Method → String → String → Bool
  shows well_known host token =
      file_shows token (w.fetch_exact (base_url w options host <> well_known_path))
  shows meta host token = home_shows w token (w.fetch_exact (base_url w options host <> "/"))
  shows dns host token = domain_shows token (w.lookup_txt (w.hostname host))
  shows (other_method m) host token = false

  ask-shows :
      (m : Method) (host token : String)
      → str_eq token "" ≡ false
      → proves (ask w options m host token) ≡ shows m host token
  unfolding ask verify_well_known verify_meta verify_dns
  ask-shows well_known host token h =
      rw h (file-shows token (w.fetch_exact (base_url w options host <> well_known_path)) h)
  ask-shows meta host token h =
      rw h (home-shows w token (w.fetch_exact (base_url w options host <> "/")))
  ask-shows dns host token h = rw h (domain-shows token (w.lookup_txt (w.hostname host)))
  ask-shows (other_method m) host token h = refl

  abbrev pub has_key : List ℕ → Bool
  has_key [] = false
  has_key (b ∷ bs) = true

  -- The record of a check: verified now, or throttled.
  abbrev pub expected : ℕ → String → Method → String → Bool → ProofRecord
  expected id host method token proven = record {
    site_id = id;
    method = method;
    token = token;
    state = if proven then verified else throttled;
    verified_at = if proven then options.now else 0;
    last_reverified_at = options.now;
  }

  -- The token that is due; none without a key.
  abbrev pub due_token : List ℕ → String → String
  due_token [] host = ""
  due_token (b ∷ bs) host = derive_token w options host

  judged-record :
      (r : ProofRecord) (a : Answer)
      → (judged w options r a).record_of
        ≡ (if proves a then record r { state = verified; verified_at = options.now } else r)
  unfolding judged
  judged-record r (found, true) = refl
  judged-record r (found, false) = refl
  judged-record r (not_found, true) = refl
  judged-record r (not_found, false) = refl
  judged-record r (mismatch, true) = refl
  judged-record r (mismatch, false) = refl
  judged-record r (redirected, true) = refl
  judged-record r (redirected, false) = refl
  judged-record r (unreachable, true) = refl
  judged-record r (unreachable, false) = refl

  token_nonempty : (host : String) → str_eq (derive_token w options host) "" ≡ false
  unfolding derive_token
  token_nonempty host =
      append_nonempty "rab_" (w.sealed options.key (canonical_host w options host)) refl

  proven_or_not :
      (id : ℕ) (host : String) (m : Method) (token : String) (p : Bool)
      → (if p
          then record (attempt w options id m token) { state = verified; verified_at = options.now }
          else attempt w options id m token)
        ≡ expected id host m token p
  proven_or_not id host m token true = refl
  proven_or_not id host m token false = refl

  verify_keyed-record :
      (k : List ℕ) (id : ℕ) (host : String) (m : Method)
      → (verify_keyed w options k id host m).record_of
        ≡ expected id host m
            (due_token k host)
            (has_key k && shows m host (derive_token w options host))
  unfolding verify_keyed
  verify_keyed-record [] id host m = refl
  verify_keyed-record (b ∷ bs) id host m =
      let token = derive_token w options host in
      judged-record (attempt w options id m token) (ask w options m host token)
      ∙ rw (ask-shows m host token (token_nonempty host))
          (proven_or_not id host m token (shows m host token))

  -- What the site's row holds after a check that could save.
  abbrev pub proof_of : ℕ → Sites → Option ProofRecord
  proof_of id [] = none
  proof_of id ((i, r) ∷ s) = if i == id then some r else proof_of id s

  proof_of-written :
      (id : ℕ) (r : ProofRecord) (s : Sites)
      → has_site id s ≡ true
      → proof_of id (written id r s) ≡ some r
  proof_of-written id r [] h = ground arith
  proof_of-written id r ((i, old) ∷ s) h = elim (Bool-cases (i == id)) [
    | inl same ↦ rw same refl
    | inr other ↦ rw other (proof_of-written id r s (rw other at h))
  ]

  save-written :
      (id : ℕ) (r : ProofRecord) (s : Sites)
      → has_site id s ≡ true
      → save_verification true id r s ≡ some (written id r s)
  unfolding save_verification
  save-written id r s there = rw there refl

  check-sites :
      (id : ℕ) (host : String) (m : Method) (s : Sites)
      → has_site id s ≡ true
      → (check w options true id host m s).sites
        ≡ written id (verify_keyed w options options.key id host m).record_of s
  unfolding check verify
  check-sites id host m s there =
      rw (save-written id (verify_keyed w options options.key id host m).record_of s there) refl

  -- For a site that there is, where the statement does not fail: a check leaves in its row the record of this
  -- attempt, with the token that this instance's key gives to the host. The record says verified, at this time,
  -- exactly if there is a key and the surface of the method shows that token, read without a redirect;
  -- in every other case, also after an error of the network, it says throttled.
  pub check_verifies_iff :
      (id : ℕ) (host : String) (m : Method) (s : Sites)
      → has_site id s ≡ true
      → proof_of id (check w options true id host m s).sites
        ≡ some (
            expected id host m
              (due_token options.key host)
              (has_key options.key && shows m host (derive_token w options host)))
  check_verifies_iff id host m s there =
      ap (proof_of id) (check-sites id host m s there)
      ∙ proof_of-written id (verify_keyed w options options.key id host m).record_of s there
      ∙ ap some (verify_keyed-record options.key id host m)
