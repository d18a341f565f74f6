-- ===== src/Segments.antt =====
-- internal/segments/segments.go: the named slices of a site. The compiler of patterns (regexp) and the path of a
-- URL (net/url, the empty text if it does not parse) are arguments; an id of 0 is not bound.
pub mod Compiled
use rabbot_seo.Base.{
  ℕ, String, Bool, true, false, not, ◌&&◌, ◌||◌, Option, none, some, List, [], ◌∷◌, leb, ◌==◌,
  if◌then◌else◌, str_eq, codes, contains_string, map,
}
use rabbot_seo.Base.Result.{Result, ok, err}

pub record SegmentConfig : Type 0 where
  pub name : String
  pub pattern : String

pub record Segment : Type 0 where
  pub name : String
  pub re : String → Bool
  pub id : ℕ

abbrev pub SiteMatcher : Type 0
SiteMatcher = List Segment

pub data CompileError : Type 0 where
  invalid_name duplicate_name invalid_pattern : String → CompileError

abbrev pub is_name_char : ℕ → Bool
is_name_char c = (leb 97 c && leb c 122) || (leb 48 c && leb c 57) || (c == 95) || (c == 45)

abbrev pub all_name_chars : List ℕ → Bool
all_name_chars [] = true
all_name_chars (c ∷ cs) = is_name_char c && all_name_chars cs

-- `^[a-z0-9_-]+$`
unfoldable pub valid_name : String → Bool
valid_name name = not (str_eq name "") && all_name_chars (codes name)

abbrev pub prepend : Segment → Result CompileError SiteMatcher → Result CompileError SiteMatcher
prepend s (err e) = err e
prepend s (ok m) = ok (s ∷ m)

module _ (compile_re : String → Option (String → Bool)) where
  -- The loop of `Compile`, with the names that were seen.
  unfoldable pub compile_from : List String → List SegmentConfig → Result CompileError SiteMatcher
  unfolding valid_name contains_string
  compile_from seen [] = ok []
  compile_from seen (s ∷ ss) =
      let rest = compile_from (s.name ∷ seen) ss in
      if not (valid_name s.name)
      then err (invalid_name s.name)
      else if contains_string seen s.name
      then err (duplicate_name s.name)
      else elim (compile_re s.pattern) [
        | none ↦ err (invalid_pattern s.name)
        | some re ↦ prepend (record { name = s.name; re = re; id = 0 }) rest
      ]

  unfoldable pub compile : List SegmentConfig → Result CompileError SiteMatcher
  unfolding compile_from
  compile ss = compile_from [] ss

abbrev pub bound : (String → Option ℕ) → Segment → Segment
bound ids s = elim (ids s.name) [ none ↦ s | some id ↦ record s { id = id } ]

unfoldable pub bind : (String → Option ℕ) → SiteMatcher → SiteMatcher
bind ids m = map (bound ids) m

unfoldable pub match_path : String → SiteMatcher → List String
match_path path [] = []
match_path path (s ∷ ss) =
    let rest = match_path path ss in if s.re path then s.name ∷ rest else rest

unfoldable pub match_path_ids : String → SiteMatcher → List ℕ
match_path_ids path [] = []
match_path_ids path (s ∷ ss) =
    let rest = match_path_ids path ss in if not (s.id == 0) && s.re path then s.id ∷ rest else rest

module _ (path_of : String → String) where
  unfoldable pub match_url : SiteMatcher → String → List String
  unfolding match_path
  match_url m raw = if str_eq (path_of raw) "" then [] else match_path (path_of raw) m

  unfoldable pub match_ids : SiteMatcher → String → List ℕ
  unfolding match_path_ids
  match_ids m raw = if str_eq (path_of raw) "" then [] else match_path_ids (path_of raw) m

  -- The map that `Swap` installs.
  abbrev pub Registry : Type 0
  Registry = List (ℕ × SiteMatcher)

  abbrev pub matcher : ℕ → Registry → SiteMatcher
  matcher site [] = []
  matcher site ((i, m) ∷ r) = if i == site then m else matcher site r

  pub segments_for : ℕ → String → Registry → List String
  unfolding match_url
  segments_for site raw r = match_url (matcher site r) raw

  pub segment_ids_for : ℕ → String → Registry → List ℕ
  unfolding match_ids
  segment_ids_for site raw r = match_ids (matcher site r) raw
