-- ===== src/Fetcher/Trip.antt =====
-- internal/fetcher/fetcher.go: the requests that a fetch makes. `http.Client` follows the redirects; on each it
-- copies the headers of the first request again (`copies` says of which ones, a rule of net/http) and asks
-- CheckRedirect. The network answers the requests of a trip in turn.
pub mod Credentials
use rabbot_seo.Base.{
  ℕ, zero, suc, ◌+◌, String, Bool, true, false, not, ◌&&◌, ◌||◌, Option, none, some, List, [], ◌∷◌,
  ◌++◌, ==_iff, if◌then◌else◌, ◌==◌, str_eq, codes, contains_codes, starts_with, keep,
  contains_string, leb, ◌-◌, ◌<>◌,
}
use rabbot_seo.RobotsMeta.{token_eq}
use rabbot_seo.Fetcher.Classify.{Headers, get, lower_codes}
use rabbot_seo.Fetcher.Ssrf.{Url, redirect_allowed}

abbrev pub max_redirects : ℕ
max_redirects = 10

pub record Request : Type 0 where
  pub url : String
  pub etag : String
  pub last_mod : String
  pub headers : Headers
  pub basic_user : String
  pub basic_pass : String
  pub cookies : List String
  pub proxy_url : String

-- An answer; `broken` is a body that cannot be read to its end.
pub record Reply : Type 0 where
  pub status : ℕ
  pub header : Headers
  pub location : String
  pub body : List ℕ
  pub broken : Bool

pub record Hop : Type 0 where
  pub url : Url
  pub headers : Headers

-- The standard library and the network; `equal_fold` is `strings.EqualFold`. `send` has the number of the request in its trip.
pub record Net : Type 0 where
  pub parse : String → Option Url
  pub resolve : Url → String → Option Url
  pub canonical : String → String
  pub equal_fold : String → String → Bool
  pub basic_auth : String → String → String
  pub copies : String → Url → Url → Bool
  pub send : ℕ → Hop → Option Reply

pub record Options : Type 0 where
  pub user_agent : String
  pub user_agent_func : Option (String → String)
  pub max_body_bytes : ℕ
  pub allow_private : Bool

-- `Header.Del`, of a canonical key.
abbrev pub del : String → Headers → Headers
del k hs = keep (λ h. not (str_eq h.0 k)) hs

abbrev pub del_all : List String → Headers → Headers
del_all [] hs = hs
del_all (k ∷ ks) hs = del k (del_all ks hs)

-- `Header.Set`
abbrev pub set : String → String → Headers → Headers
set k v hs = (k, v) ∷ del k hs

unfoldable pub is_credential : String → Bool
unfolding lower_codes contains_codes starts_with
is_credential k =
    let lk = lower_codes (codes k) in
    contains_codes lk (codes "auth")
    || contains_codes lk (codes "token")
    || contains_codes lk (codes "key")
    || contains_codes lk (codes "secret")
    || starts_with (codes "x-api") lk

abbrev pub is_redirect : ℕ → Bool
is_redirect status =
    (status == 301) || (status == 302) || (status == 303) || (status == 307) || (status == 308)

-- Where an answer sends the client.
pub data Target : Type 0 where
  stays broken : Target
  goes : Url → Target

pub data Ending : Type 0 where
  failed : Ending
  capped : Reply → Url → Ending
  answered : Reply → Url → Ending

pub data Step : Type 0 where
  stop : Ending → Step
  redirects : Reply → Url → Step

-- The requests of a trip and its chain, from the first.
pub record Trip : Type 0 where
  pub hops : List Hop
  pub chain : List String
  pub ending : Ending

module _ (net : Net) (options : Options) where
  abbrev pub set_all : Headers → Headers → Headers
  set_all [] hs = hs
  set_all ((k, v) ∷ kvs) hs = set_all kvs (set (net.canonical k) v hs)

  abbrev pub set_if : String → String → Headers → Headers
  set_if k v hs = if str_eq v "" then hs else set k v hs

  -- `AddCookie`, of a cookie that is printed.
  abbrev pub add_cookie : String → Headers → Headers
  add_cookie c hs =
      set "Cookie" (if str_eq (get "Cookie" hs) "" then c else get "Cookie" hs <> "; " <> c) hs

  abbrev pub add_cookies : List String → Headers → Headers
  add_cookies [] hs = hs
  add_cookies (c ∷ cs) hs = add_cookies cs (add_cookie c hs)

  abbrev pub same_host : Url → Url → Bool
  same_host a b = net.equal_fold a.hostname b.hostname

  -- The headers of the first request.
  unfoldable pub first_headers : Request → Url → Headers
  first_headers req u =
      let ua : String = elim options.user_agent_func [
        | none ↦ options.user_agent
        | some f ↦ f u.hostname
      ] in
      let h1 =
        set_if "If-Modified-Since" req.last_mod
          (set_if "If-None-Match" req.etag (set "User-Agent" ua [])) in
      let h2 = set_all req.headers h1 in
      let h3 =
        if str_eq req.basic_user "" && str_eq req.basic_pass ""
        then h2
        else set "Authorization" (net.basic_auth req.basic_user req.basic_pass) h2 in
      add_cookies req.cookies h3

  unfoldable pub credential_header_keys : Headers → List String
  unfolding is_credential
  credential_header_keys [] = []
  credential_header_keys ((k, v) ∷ hs) =
      let rest = credential_header_keys hs in
      if is_credential k then net.canonical k ∷ rest else rest

  -- The headers that the client copies to a redirected request.
  unfoldable pub copied : Headers → Url → Url → Headers
  copied initial prev u = keep (λ h. net.copies h.0 prev u) initial

  unfoldable pub next_hop : List String → Headers → Url → Url → Hop
  unfolding copied
  next_hop credentials initial prev u = record {
    url = u;
    headers =
        if not (same_host prev u)
        then del_all credentials (copied initial prev u)
        else copied initial prev u;
  }

  unfoldable pub target_of : Url → Reply → Target
  target_of prev r =
      if not (is_redirect r.status) || str_eq r.location ""
      then stays
      else elim (net.resolve prev r.location) [ none ↦ broken | some u ↦ goes u ]

  abbrev pub starts : Hop → String → Trip → Trip
  starts hop text t = record { hops = hop ∷ t.hops; chain = text ∷ t.chain; ending = t.ending }

  abbrev pub ends : Hop → List String → Ending → Trip
  ends hop chain e = record { hops = hop ∷ []; chain = chain; ending = e }

  unfoldable pub outcome : ℕ → Hop → Step
  unfolding target_of
  outcome n hop = elim (net.send n hop) [
    | none ↦ stop failed
    | some r ↦ elim (target_of hop.url r) [
      | stays ↦ stop (answered r hop.url)
      | broken ↦ stop failed
      | goes u ↦ redirects r u
    ]
  ]

  -- CheckRedirect refuses the destination.
  abbrev pub is_refused : Url → Bool
  is_refused u = not options.allow_private && not (redirect_allowed u)

  module _ (credentials : List String) (initial : Headers) where
    -- The `n`th request, after which `left` redirects may be followed; the chain is what redirects add.
    unfoldable pub follow : ℕ → ℕ → Hop → Trip
    unfolding outcome next_hop
    follow zero n hop = elim (outcome n hop) [
      | stop e ↦ ends hop [] e
      | redirects r u ↦ ends hop (u.text ∷ []) (capped r hop.url)
    ]
    follow (suc left) n hop = elim (outcome n hop) [
      | stop e ↦ ends hop [] e
      | redirects r u ↦
          let rest = follow left (suc n) (next_hop credentials initial hop.url u) in
          if is_refused u then ends hop (u.text ∷ []) failed else starts hop u.text rest
    ]

  -- `client.Do` on the first request: it asks CheckRedirect with as many requests behind it as were made.
  unfoldable pub trip : Request → Url → Trip
  unfolding follow first_headers credential_header_keys
  trip req u =
      let initial = first_headers req u in
      follow (credential_header_keys req.headers) initial (max_redirects - 1) 0
        (record { url = u; headers = initial })
