-- ===== src/Fetcher/Classify.antt =====
-- internal/fetcher/classify.go and status.go: what an answer says of a page's accessibility. A body and a
-- header are sequences of code points.
use rabbot_seo.Base.{
  ℕ, String, Bool, not, ◌&&◌, ◌||◌, List, [], ◌∷◌, ◌++◌, leb, ltb, ◌==◌, map, if◌then◌else◌, str_eq,
  codes, to_lower, contains_codes,
}
use rabbot_seo.Model.{
  FetchClass, ok, soft_block, hard_block, StatusType, page, redirect, missing, server_error,
  unreachable_status,
}

-- A header under its canonical key.
abbrev pub Headers : Type 0
Headers = List (String × String)

-- `Header.Values`
abbrev pub values : String → Headers → List String
values k [] = []
values k ((k', v) ∷ hs) = if str_eq k' k then v ∷ values k hs else values k hs

-- `Header.Get`
abbrev pub get : String → Headers → String
get k [] = ""
get k ((k', v) ∷ hs) = if str_eq k' k then v else get k hs

-- `strings.Join(vs, " ")`
abbrev pub join_spaced : List String → List ℕ
join_spaced [] = []
join_spaced (v ∷ []) = codes v
join_spaced (v ∷ w ∷ vs) = codes v ++ (32 ∷ join_spaced (w ∷ vs))

unfoldable pub lower_codes : List ℕ → List ℕ
unfolding to_lower
lower_codes s = map (λ c. to_lower c) s

abbrev pub mentions : List ℕ → String → Bool
mentions s p = contains_codes s (codes p)

-- The texts that the tests read, in lower case.
abbrev is_cloudflare : Headers → List ℕ → List ℕ → Bool
is_cloudflare header body server =
    not (str_eq (get "Cf-Mitigated" header) "")
    || mentions body "cf-chl"
    || mentions body "attention required"
    || (mentions server "cloudflare"
        && mentions body "cloudflare"
        && (mentions body "ray id" || mentions body "attention required"))

abbrev is_akamai : List ℕ → List ℕ → Bool
is_akamai body server =
    mentions server "akamai" && (mentions body "access denied" || mentions body "reference #")

unfoldable pub detect_vendor : Headers → List ℕ → String
unfolding lower_codes contains_codes
detect_vendor header raw =
    let body = lower_codes raw in
    let cookie = lower_codes (join_spaced (values "Set-Cookie" header)) in
    let server = lower_codes (codes (get "Server" header)) in
    if is_cloudflare header body server
    then "cloudflare"
    else if mentions cookie "datadome" || mentions body "datadome"
    then "datadome"
    else if mentions body "_pxappid" || mentions body "px-captcha" || mentions cookie "_px"
    then "perimeterx"
    else if is_akamai body server
    then "akamai"
    else if mentions body "h-captcha" || mentions body "hcaptcha.com"
    then "hcaptcha"
    else if mentions body "g-recaptcha" || mentions body "recaptcha/api.js"
    then "recaptcha"
    else ""

unfoldable pub classify : ℕ → Headers → List ℕ → FetchClass × String
unfolding detect_vendor
classify status header body =
    let detector = detect_vendor header body in
    if (status == 429) || (status == 503)
    then (soft_block, "")
    else if not (str_eq detector "")
    then (hard_block, detector)
    else if status == 403
    then (hard_block, "")
    else (ok, "")

unfoldable pub status_type_for : ℕ → Bool → StatusType
status_type_for status redirected =
    if status == 0
    then unreachable_status
    else if leb 300 status && ltb status 400
    then redirect
    else if redirected && leb 200 status && ltb status 300
    then redirect
    else if leb 200 status && ltb status 300
    then page
    else if leb 400 status && ltb status 500
    then missing
    else if leb 500 status
    then server_error
    else unreachable_status
