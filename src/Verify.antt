-- ===== src/Verify.antt =====
-- internal/verify: the proof that an operator controls a site. The network, the resolver, the HTML parser, the
-- HMAC with its encoding and net/url are arguments; a time of 0 is the zero time. The comparison in constant
-- time is equality.
pub mod Check
pub mod Surfaces
pub mod Control
use rabbot_seo.Base.{
  ℕ, ◌+◌, String, Bool, true, false, not, ◌&&◌, ◌||◌, Option, none, some, List, [], ◌∷◌, leb, ltb,
  ◌==◌, if◌then◌else◌, str_eq, ◌<>◌, trim_space, trim_slashes, has_prefix,
}
use Prim.Native.Char.{code}
use Prim.Native.String

pub data State : Type 0 where
  verified attested throttled : State

pub data Method : Type 0 where
  well_known dns meta : Method
  other_method : String → Method

pub data Reason : Type 0 where
  found not_found mismatch redirected unreachable : Reason

pub record ProofRecord : Type 0 where
  pub site_id : ℕ
  pub method : Method
  pub token : String
  pub state : State
  pub verified_at : ℕ
  pub last_reverified_at : ℕ

pub record Outcome : Type 0 where
  pub record_of : ProofRecord
  pub reason : Reason
  pub failed : Bool

-- `fetch_exact` follows no redirect and gives a status and a body; `metas` are the `content` attributes of
-- the elements that the selector finds; `none` is an error.
pub record World : Type 0 where
  pub fetch_exact : String → Option (ℕ × String)
  pub metas : String → Option (List (Option String))
  pub lookup_txt : String → Option (List String)
  pub to_lower : String → String
  pub hostname : String → String
  pub port : String → String
  pub sealed : List ℕ → String → String

pub record Options : Type 0 where
  pub now : ℕ
  pub base_override : String
  pub key : List ℕ

-- `strings.TrimSuffix(s, ".")`
abbrev pub trim_dot : String → String
trim_dot String.[] = ""
trim_dot (String.◌∷◌ c s) =
    let rest = trim_dot s in if (code c == 46) && str_eq s "" then "" else String.◌∷◌ c rest

-- `strings.Trim(s, "\"")`
abbrev trim_quotes_left : String → String
trim_quotes_left String.[] = ""
trim_quotes_left (String.◌∷◌ c s) =
    let rest = trim_quotes_left s in if code c == 34 then rest else String.◌∷◌ c s

abbrev trim_quotes_right : String → String
trim_quotes_right String.[] = ""
trim_quotes_right (String.◌∷◌ c s) =
    let rest = trim_quotes_right s in
    if (code c == 34) && str_eq rest "" then "" else String.◌∷◌ c rest

abbrev pub trim_quotes : String → String
trim_quotes s = trim_quotes_right (trim_quotes_left s)

-- A TXT record, normalised.
unfoldable pub plain_record : String → String
plain_record r = trim_dot (trim_space (trim_quotes (trim_space r)))

abbrev pub dns_prefix : String
dns_prefix = "rabbot-verify="

abbrev pub well_known_path : String
well_known_path = "/.well-known/rabbot-verify.txt"

abbrev pub is_redirect : ℕ → Bool
is_redirect status = leb 300 status && ltb status 400

-- A reason, and whether there is an error.
abbrev pub Answer : Type 0
Answer = Reason × Bool

-- The loops over the records and over the elements, with what was seen before.
unfoldable pub match_records : String → Bool → List String → Reason
match_records want present [] = if present then mismatch else not_found
match_records want present (r ∷ rs) =
    let rec = plain_record r in
    let known = match_records want true rs in
    let skip = match_records want present rs in
    if has_prefix dns_prefix rec then (if str_eq rec want then found else known) else skip

unfoldable pub match_metas : String → Bool → List (Option String) → Reason
match_metas token present [] = if present then mismatch else not_found
match_metas token present (none ∷ ms) = match_metas token present ms
match_metas token present (some content ∷ ms) =
    let rest = match_metas token true ms in
    if str_eq (trim_space content) token then found else rest

-- What is read of the file, of the home page and of the domain.
unfoldable pub read_file : String → Option (ℕ × String) → Answer
read_file token none = (unreachable, true)
read_file token (some (status, body)) =
    if is_redirect status
    then (redirected, false)
    else if not (status == 200)
    then (not_found, false)
    else if str_eq (trim_space body) ""
    then (not_found, false)
    else if str_eq (trim_space body) token
    then (found, false)
    else (mismatch, false)

unfoldable pub read_elements : String → Option (List (Option String)) → Answer
unfolding match_metas
read_elements token none = (unreachable, true)
read_elements token (some ms) = (match_metas token false ms, false)

unfoldable pub read_home : World → String → Option (ℕ × String) → Answer
unfolding read_elements
read_home w token none = (unreachable, true)
read_home w token (some (status, body)) =
    let elements = read_elements token (w.metas body) in
    if is_redirect status
    then (redirected, false)
    else if not (status == 200)
    then (not_found, false)
    else elements

unfoldable pub read_records : String → Option (List String) → Answer
unfolding match_records
read_records token none = (unreachable, true)
read_records token (some records) = (match_records (dns_prefix <> token) false records, false)

module _ (w : World) (options : Options) where
  abbrev pub base_url : String → String
  base_url host =
      if str_eq options.base_override ""
      then "https://" <> host
      else trim_slashes options.base_override

  unfoldable pub canonical_host : String → String
  canonical_host host =
      let h = trim_dot (w.to_lower (trim_space host)) in
      if str_eq (w.port h) "443" || str_eq (w.port h) "80" then w.hostname h else h

  unfoldable pub derive_token : String → String
  unfolding canonical_host
  derive_token host = "rab_" <> w.sealed options.key (canonical_host host)

  unfoldable pub verify_well_known : String → String → Answer
  unfolding read_file
  verify_well_known host token =
      if str_eq token ""
      then (not_found, false)
      else read_file token (w.fetch_exact (base_url host <> well_known_path))

  unfoldable pub verify_meta : String → String → Answer
  unfolding read_home
  verify_meta host token =
      if str_eq token ""
      then (not_found, false)
      else read_home w token (w.fetch_exact (base_url host <> "/"))

  unfoldable pub verify_dns : String → String → Answer
  unfolding read_records
  verify_dns host token =
      if str_eq token ""
      then (not_found, false)
      else read_records token (w.lookup_txt (w.hostname host))

  unfoldable pub ask : Method → String → String → Answer
  unfolding verify_well_known verify_meta verify_dns
  ask well_known host token = verify_well_known host token
  ask meta host token = verify_meta host token
  ask dns host token = verify_dns host token
  ask (other_method m) host token = (unreachable, true)

  abbrev pub attempt : ℕ → Method → String → ProofRecord
  attempt site_id method token = record {
    site_id = site_id;
    method = method;
    token = token;
    state = throttled;
    verified_at = 0;
    last_reverified_at = options.now;
  }

  -- What an answer makes of the record of the attempt.
  unfoldable pub judged : ProofRecord → Answer → Outcome
  judged r (reason, true) = record { record_of = r; reason = unreachable; failed = true }
  judged r (found, false) = record {
    record_of = record r { state = verified; verified_at = options.now };
    reason = found;
    failed = false;
  }
  judged r (reason, false) = record { record_of = r; reason = reason; failed = false }

  -- Without a key nothing is verified.
  unfoldable pub verify_keyed : List ℕ → ℕ → String → Method → Outcome
  unfolding ask judged derive_token
  verify_keyed [] site_id host method = record {
    record_of = attempt site_id method "";
    reason = unreachable;
    failed = false;
  }
  verify_keyed (b ∷ bs) site_id host method =
      let token = derive_token host in judged (attempt site_id method token) (ask method host token)

  unfoldable pub verify : ℕ → String → Method → Outcome
  unfolding verify_keyed
  verify site_id host method = verify_keyed options.key site_id host method
