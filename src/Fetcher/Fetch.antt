-- ===== src/Fetcher/Fetch.antt =====
-- internal/fetcher/fetcher.go: what a fetch makes of its trip. `new_client` is the choice of a client: only
-- whether it fails is of interest, since the transport is net/http's.
pub mod Proper
use rabbot_seo.Base.{
  ℕ, suc, ◌+◌, String, Bool, true, false, not, ◌&&◌, ◌||◌, Option, none, some, List, [], ◌∷◌, ltb,
  leb, ◌==◌, length, take, if◌then◌else◌, str_eq,
}
use rabbot_seo.Model.{FetchClass, ok, unreachable, StatusType, page, unreachable_status}
use rabbot_seo.Fetcher.Classify.{Headers, classify, status_type_for}
use rabbot_seo.Fetcher.Ssrf.{Url, names_disallowed}
use rabbot_seo.Fetcher.Trip.{
  Request, Reply, Net, Options, Ending, failed, capped, answered, Trip, trip,
}

pub data FetchError : Type 0 where
  bad_proxy_url disallowed_destination bad_request transport too_many_redirects unreadable :
      FetchError

pub record Result : Type 0 where
  pub final_url : String
  pub http_status : ℕ
  pub fetch_class : FetchClass
  pub status_type : StatusType
  pub redirect_chain : List String
  pub header : Headers
  pub body : List ℕ
  pub truncated : Bool
  pub not_modified : Bool
  pub detector : String
  pub error : Option FetchError

-- A result with an error; `r` has what was set before it.
abbrev pub unreached : FetchError → Result → Result
unreached e r = record r {
  fetch_class = unreachable;
  status_type = unreachable_status;
  error = some e;
}

abbrev pub no_result : Result
no_result = record {
  final_url = "";
  http_status = 0;
  fetch_class = ok;
  status_type = page;
  redirect_chain = [];
  header = [];
  body = [];
  truncated = false;
  not_modified = false;
  detector = "";
  error = none;
}

-- The first `max + 1` bytes of a body.
abbrev pub read_body : ℕ → Reply → Option (List ℕ)
read_body max r =
    if leb (suc max) (length r.body)
    then some (take (suc max) r.body)
    else if r.broken
    then none
    else some r.body

abbrev pub is_ok : FetchClass → Bool
is_ok ok = true
is_ok _ = false

module _ (net : Net) (options : Options) where
  unfoldable pub new_client : String → Option FetchError
  new_client proxy = if str_eq proxy "" then none else elim (net.parse proxy) [
    | none ↦ some bad_proxy_url
    | some u ↦
        if not options.allow_private && names_disallowed u
        then some disallowed_destination
        else none
  ]

  -- A body that was read, and the class of the answer.
  unfoldable pub with_body : Reply → List String → Result → List ℕ → Result
  with_body r chain res read =
      let cut = ltb options.max_body_bytes (length read) in
      let body = if cut then take options.max_body_bytes read else read in
      let (class, detector) = classify r.status r.header body in
      record res {
        truncated = cut;
        fetch_class = class;
        detector = detector;
        status_type = status_type_for r.status (ltb 1 (length chain));
        body = if is_ok class then body else [];
      }

  abbrev pub with_reply : Reply → Url → List String → Result
  with_reply r u chain = record no_result {
    http_status = r.status;
    header = r.header;
    final_url = u.text;
    redirect_chain = chain;
    not_modified = r.status == 304;
  }

  unfoldable pub finish : List String → Ending → Result
  unfolding with_body
  finish chain failed = unreached transport (record no_result { redirect_chain = chain })
  finish chain (capped r u) = unreached too_many_redirects (with_reply r u chain)
  finish chain (answered r u) =
      let res = with_reply r u chain in
      if r.status == 304 then res else elim (read_body options.max_body_bytes r) [
        | none ↦ unreached unreadable res
        | some read ↦ with_body r chain res read
      ]

  unfoldable pub fetch_at : Request → Option Url → Result
  unfolding finish trip
  fetch_at req none = unreached bad_request no_result
  fetch_at req (some u) = let t = trip net options req u in finish (req.url ∷ t.chain) t.ending

  unfoldable pub fetch : Request → Result
  unfolding fetch_at new_client
  fetch req = elim (new_client req.proxy_url) [
    | some e ↦ unreached e no_result
    | none ↦ fetch_at req (net.parse req.url)
  ]
