-- ===== src/Examples/Fetches.antt =====
-- The theorems on fetches, at a site that redirects to another host and there once more.
use rabbot_seo.Base.{
  ℕ, ◌≤◌, ◌≡◌, refl, Bool, true, false, Option, none, some, String, List, [], ◌∷◌, length, str_eq,
  if◌then◌else◌, contains_string, contains_codes, starts_with, to_lower, ◌==◌,
}
use rabbot_seo.Fetcher.Classify.{lower_codes}
use rabbot_seo.Fetcher.Ssrf.{Url, v4, bytes4, ip_disallowed, redirect_allowed}
use rabbot_seo.Fetcher.Ssrf.Blocks
use rabbot_seo.Fetcher.Ssrf.Blocks.{in_blocks, refused_blocks}
use rabbot_seo.Fetcher.Trip.{
  Request, Reply, Hop, Net, Options, trip, max_redirects, first_headers, credential_header_keys,
  is_credential, next_hop,
}
use rabbot_seo.Fetcher.Trip.Credentials
use rabbot_seo.Fetcher.Trip.Credentials.{Steps, IsGuarded, has_header}
use rabbot_seo.Fetcher.Fetch.{fetch}
use rabbot_seo.Fetcher.Fetch.Proper
use rabbot_seo.Fetcher.Fetch.Proper.{IsProper}

abbrev address : String → String → Url
address text host = record { text = text; scheme = "https"; hostname = host; ip = none }

abbrev reply : ℕ → String → Reply
reply status location = record {
  status = status;
  header = [];
  location = location;
  body = 104 ∷ 105 ∷ [];
  broken = false;
}

abbrev parse : String → Option Url
parse s = some (address s (if str_eq s "https://a.example/" then "a.example" else "b.example"))

abbrev net : Net
net = record {
  parse = parse;
  resolve = λ prev s. parse s;
  canonical = λ k. k;
  equal_fold = str_eq;
  basic_auth = λ user pass. user;
  copies = λ k prev u. true;
  send = λ n hop.
      if n == 0
      then some (reply 302 "https://b.example/1")
      else if n == 1
      then some (reply 302 "https://b.example/2")
      else some (reply 200 "");
}

abbrev options : Options
options = record {
  user_agent = "rabbot";
  user_agent_func = none;
  max_body_bytes = 1;
  allow_private = false;
}

abbrev request : Request
request = record {
  url = "https://a.example/";
  etag = "";
  last_mod = "";
  headers = ("X-Api-Key", "topsecret") ∷ [];
  basic_user = "";
  basic_pass = "";
  cookies = [];
  proxy_url = "";
}

secret : contains_string (credential_header_keys net options request.headers) "X-Api-Key" ≡ true
unfolding contains_string credential_header_keys is_credential lower_codes to_lower contains_codes
    starts_with
secret = refl

trip-IsGuarded_example :
    Steps
      (IsGuarded net options "X-Api-Key"
        (first_headers net options request (address "https://a.example/" "a.example")))
      (trip net options request (address "https://a.example/" "a.example")).hops
    × (length (trip net options request (address "https://a.example/" "a.example")).hops
        ≤ max_redirects)
    × (length (trip net options request (address "https://a.example/" "a.example")).chain
        ≤ max_redirects)
trip-IsGuarded_example =
    Credentials.trip-IsGuarded net options request (address "https://a.example/" "a.example")
      "X-Api-Key" secret

abbrev sends_key : String → List Hop → List Bool
sends_key k [] = []
sends_key k (h ∷ hs) = has_header k h.headers ∷ sends_key k hs

-- The key is not sent with the first request to the other host, but with the second.
key_returns :
    sends_key "X-Api-Key" (trip net options request (address "https://a.example/" "a.example")).hops
    ≡ true ∷ false ∷ true ∷ []
unfolding trip redirect_allowed next_hop
key_returns = refl

fetch-IsProper_example : IsProper options.max_body_bytes (fetch net options request)
fetch-IsProper_example = Proper.fetch-IsProper net options request

v4_blocks_example :
    ip_disallowed (v4 (bytes4 100 100 100 200)) ≡ in_blocks refused_blocks (bytes4 100 100 100 200)
v4_blocks_example = Blocks.v4_blocks (bytes4 100 100 100 200)
