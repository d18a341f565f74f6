-- ===== src/Fetcher/Fetch/Proper.antt =====
-- What every result of a fetch keeps to, whatever the network does.
use rabbot_seo.Base.{
  ℕ, ◌≤◌, ◌≡◌, refl, String, Bool, true, false, not, ◌&&◌, ◌||◌, Option, none, some, List, [], ◌∷◌,
  ltb, ◌==◌, length, take, length-take-le, if◌then◌else◌, arith, Bool-cases, Option-cases, inl, inr,
}
use rabbot_seo.Model.{FetchClass, unreachable}
use rabbot_seo.Fetcher.Classify.{Headers, classify}
use rabbot_seo.Fetcher.Ssrf.{Url}
use rabbot_seo.Fetcher.Trip.{Request, Reply, Net, Options, Ending, failed, capped, answered, trip}
use rabbot_seo.Fetcher.Fetch.{
  Result, FetchError, unreached, no_result, read_body, is_ok, with_body, with_reply, finish,
  fetch_at, fetch, new_client, transport, too_many_redirects, unreadable, bad_request,
}

abbrev pub is_unreachable : FetchClass → Bool
is_unreachable unreachable = true
is_unreachable _ = false

abbrev pub has_error : Option FetchError → Bool
has_error none = false
has_error (some e) = true

abbrev is_empty : List ℕ → Bool
is_empty [] = true
is_empty (c ∷ cs) = false

-- The body is within the cap; there is one only of a fetch that is ok and not a 304; and a fetch has an
-- error exactly if it is unreachable.
pub record IsProper (max : ℕ) (r : Result) : Type 0 where
  pub size : length r.body ≤ max
  pub kept : (is_empty r.body || (is_ok r.fetch_class && not r.not_modified)) ≡ true
  pub classed : has_error r.error ≡ is_unreachable r.fetch_class

classify-reachable :
    (status : ℕ) (header : Headers) (body : List ℕ)
    → is_unreachable (classify status header body).0 ≡ false
unfolding classify
classify-reachable status header body = ground arith

abbrev cut_body : ℕ → List ℕ → List ℕ
cut_body max read = if ltb max (length read) then take max read else read

cut_body_le : (max : ℕ) (read : List ℕ) → length (cut_body max read) ≤ max
cut_body_le max read = ground (arith, length-take-le max read)

module _ (net : Net) (options : Options) where
  unreached-IsProper :
      (e : FetchError) (r : Result) → r.body ≡ [] → IsProper options.max_body_bytes (unreached e r)
  unreached-IsProper e r h = record { size = rw h (omega arith); kept = rw h refl; classed = refl }

  with_body-IsProper :
      (r : Reply) (chain : List String) (res : Result) (read : List ℕ)
      → res.error ≡ none
      → res.not_modified ≡ false
      → IsProper options.max_body_bytes (with_body net options r chain res read)
  unfolding with_body
  with_body-IsProper r chain res read h k =
      let body = cut_body options.max_body_bytes read in
      let class = (classify r.status r.header body).0 in
      let fits = cut_body_le options.max_body_bytes read in
      record {
        size = elim (Bool-cases (is_ok class)) [
          | inl fine ↦ rw fine fits
          | inr other ↦ rw other (omega arith)
        ];
        kept = elim (Bool-cases (is_ok class)) [
          | inl fine ↦ rw (fine, k) (ground arith)
          | inr other ↦ rw other refl
        ];
        classed = rw (h, classify-reachable r.status r.header body) refl;
      }

  finish-IsProper :
      (chain : List String) (e : Ending)
      → IsProper options.max_body_bytes (finish net options chain e)
  unfolding finish
  finish-IsProper chain failed =
      unreached-IsProper transport (record no_result { redirect_chain = chain }) refl
  finish-IsProper chain (capped r u) =
      unreached-IsProper too_many_redirects (with_reply net options r u chain) refl
  finish-IsProper chain (answered r u) =
      let res = with_reply net options r u chain in
      elim (Bool-cases (r.status == 304)) [
        | inl same ↦ rw same (record { size = omega arith; kept = refl; classed = refl })
        | inr new ↦ elim (Option-cases (read_body options.max_body_bytes r)) [
          | inl bad ↦ rw (new, bad) (unreached-IsProper unreadable res refl)
          | inr (read, good) ↦ rw (new, good) (with_body-IsProper r chain res read refl new)
        ]
      ]

  fetch_at-IsProper :
      (req : Request) (u : Option Url)
      → IsProper options.max_body_bytes (fetch_at net options req u)
  unfolding fetch_at
  fetch_at-IsProper req none = unreached-IsProper bad_request no_result refl
  fetch_at-IsProper req (some u) =
      finish-IsProper (req.url ∷ (trip net options req u).chain) (trip net options req u).ending

  -- Whatever the network does, the result of a fetch has a body no longer than the cap, and one at all only if
  -- the fetch is ok and no 304; and it has an error exactly if it is unreachable.
  pub fetch-IsProper : (req : Request) → IsProper options.max_body_bytes (fetch net options req)
  unfolding fetch
  fetch-IsProper req = elim (Option-cases (new_client net options req.proxy_url)) [
    | inl fine ↦ rw (fetch, fine) (fetch_at-IsProper req (net.parse req.url))
    | inr (e, bad) ↦ rw (fetch, bad) (unreached-IsProper e no_result refl)
  ]
