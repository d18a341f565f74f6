-- ===== src/Scheduler/GscSignals/States.antt =====
-- internal/scheduler/gscsignals.go: what Google's coverage state says of a page. Upper and lower case are
-- those of the letters whose other case is ASCII.
use rabbot_seo.Base.{
  ℕ, ◌-◌, String, Bool, true, false, ◌&&◌, Option, none, some, List, [], ◌∷◌, leb, ◌==◌, map,
  if◌then◌else◌, str_eq, codes, trim_space, to_lower,
}
use rabbot_seo.RobotsMeta.{token_eq}

pub record IndexStatus : Type 0 where
  pub coverage_state : String
  pub indexing_state : String
  pub verdict : String
  pub user_canonical : String
  pub google_canonical : String
  pub inspected_at : ℕ

-- The dotless i and the long s have ASCII upper cases.
to_upper : ℕ → ℕ
to_upper c =
    if leb 97 c && leb c 122 then c - 32 else if c == 305 then 73 else if c == 383 then 83 else c

unify_quote : ℕ → ℕ
unify_quote c = if c == 8217 then 39 else c

unfoldable pub normalize_state : String → List ℕ
unfolding to_lower unify_quote
normalize_state s = map (λ c. unify_quote (to_lower c)) (codes (trim_space s))

abbrev pub indexed_coverage : List String
indexed_coverage =
    "submitted and indexed" ∷ "indexed, not submitted in sitemap" ∷ "indexed, low interest" ∷ []

abbrev pub not_indexed_coverage : List String
not_indexed_coverage =
    "crawled - currently not indexed" ∷ "discovered - currently not indexed"
    ∷ "excluded by 'noindex' tag" ∷ "page with redirect"
    ∷ "alternate page with proper canonical tag" ∷ "duplicate without user-selected canonical"
    ∷ "duplicate, google chose different canonical than user"
    ∷ "duplicate, submitted url not selected as canonical" ∷ "blocked by robots.txt"
    ∷ "indexed, though blocked by robots.txt" ∷ "blocked due to unauthorized request (401)"
    ∷ "blocked due to access forbidden (403)" ∷ "not found (404)" ∷ "soft 404"
    ∷ "server error (5xx)" ∷ "redirect error" ∷ "url is unknown to google"
    ∷ "excluded by page removal tool" ∷ "blocked due to other 4xx issue" ∷ "crawl anomaly"
    ∷ "submitted url blocked by robots.txt" ∷ "submitted url marked 'noindex'"
    ∷ "submitted url seems to be a soft 404" ∷ "submitted url not found (404)"
    ∷ "submitted url returned 403" ∷ "submitted url has crawl issue" ∷ []

unfoldable pub is_listed : List ℕ → List String → Bool
unfolding token_eq
is_listed s [] = false
is_listed s (t ∷ ts) = if token_eq s (codes t) then true else is_listed s ts

by_verdict : List ℕ → Option Bool
unfolding token_eq
by_verdict v =
    if token_eq v (codes "PASS")
    then some true
    else if token_eq v (codes "FAIL")
    then some false
    else none

by_coverage : List ℕ → List ℕ → Option Bool
unfolding is_listed by_verdict
by_coverage [] v = by_verdict v
by_coverage (c ∷ cs) v =
    if is_listed (c ∷ cs) indexed_coverage
    then some true
    else if is_listed (c ∷ cs) not_indexed_coverage
    then some false
    else none

-- `none` is a state that says nothing.
unfoldable pub gsc_indexed : IndexStatus → Option Bool
unfolding by_coverage normalize_state to_upper
gsc_indexed idx =
    by_coverage (normalize_state idx.coverage_state) (map to_upper (codes (trim_space idx.verdict)))

unfoldable pub google_state_label : IndexStatus → String
google_state_label idx =
    let coverage = trim_space idx.coverage_state in
    let indexing = trim_space idx.indexing_state in
    if str_eq coverage ""
    then (if str_eq indexing "" then trim_space idx.verdict else indexing)
    else coverage
