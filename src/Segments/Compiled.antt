-- ===== src/Segments/Compiled.antt =====
-- When a configuration of segments compiles, and what its matcher then says of a URL.
use mathlib.Core.Option.{some-injective}
use rabbot_seo.Base.{
  ◌≡◌, refl, ap, ◌∙◌, String, Bool, true, false, not, ◌&&◌, Option, none, some, List, [], ◌∷◌,
  if◌then◌else◌, str_eq, contains_string, Bool-cases, Option-cases, inl, inr,
}
use rabbot_seo.Base.Result.{Result, ok, err}
use rabbot_seo.Segments.{
  SegmentConfig, Segment, SiteMatcher, CompileError, valid_name, prepend, compile_from, compile,
  match_path, match_url,
}

abbrev pub has_pattern : Option (String → Bool) → Bool
has_pattern none = false
has_pattern (some re) = true

abbrev pub runs : Option (String → Bool) → String → Bool
runs none path = false
runs (some re) path = re path

module _ (compile_re : String → Option (String → Bool)) (path_of : String → String) where
  -- A configuration whose names are valid, new and once each, and whose patterns compile.
  abbrev pub is_valid_from : List String → List SegmentConfig → Bool
  is_valid_from seen [] = true
  is_valid_from seen (s ∷ ss) =
      valid_name s.name
      && not (contains_string seen s.name)
      && has_pattern (compile_re s.pattern)
      && is_valid_from (s.name ∷ seen) ss

  -- The names of the segments whose patterns match a path, in the order of the configuration.
  abbrev pub matching : String → List SegmentConfig → List String
  matching path [] = []
  matching path (s ∷ ss) =
      if runs (compile_re s.pattern) path then s.name ∷ matching path ss else matching path ss

  -- What is said of a URL by a compilation; none if it failed.
  abbrev pub said : String → Result CompileError SiteMatcher → Option (List String)
  said raw (err e) = none
  said raw (ok m) = some (match_url path_of m raw)

  abbrev pub due : String → List SegmentConfig → List String
  due raw ss = if str_eq (path_of raw) "" then [] else matching (path_of raw) ss

  abbrev said_at : String → Result CompileError SiteMatcher → Option (List String)
  said_at path (err e) = none
  said_at path (ok m) = some (match_path path m)

  said-prepend :
      (path : String) (s : Segment) (r : Result CompileError SiteMatcher) (b : Bool)
      (ns : List String)
      → said_at path r ≡ (if b then some ns else none)
      → said_at path (prepend s r)
        ≡ (if b then some (if s.re path then s.name ∷ ns else ns) else none)
  unfolding match_path
  said-prepend path s (err e) true ns h = cc
  said-prepend path s (err e) false ns h = refl
  said-prepend path s (ok m) false ns h = cc
  said-prepend path s (ok m) true ns h =
      ap (λ x. some (if s.re path then s.name ∷ x else x)) (some-injective (match_path path m) ns h)

  compile_from-said :
      (path : String) (seen : List String) (ss : List SegmentConfig)
      → said_at path (compile_from compile_re seen ss)
        ≡ (if is_valid_from seen ss then some (matching path ss) else none)
  unfolding compile_from match_path
  compile_from-said path seen [] = refl
  compile_from-said path seen (s ∷ ss) = elim (Bool-cases (valid_name s.name)) [
    | inr bad ↦ rw bad refl
    | inl named ↦ elim (Bool-cases (contains_string seen s.name)) [
      | inl twice ↦ rw (named, twice) refl
      | inr once ↦ elim (Option-cases (compile_re s.pattern)) [
        | inl broken ↦ rw (named, once, broken) refl
        | inr (re, good) ↦
            rw (named, once, good)
              (said-prepend path (record { name = s.name; re = re; id = 0 })
                (compile_from compile_re (s.name ∷ seen) ss) (is_valid_from (s.name ∷ seen) ss)
                (matching path ss) (compile_from-said path (s.name ∷ seen) ss))
      ]
    ]
  ]

  -- `said` for a path that is there, and for one that is not.
  said-said_at :
      (raw : String) (r : Result CompileError SiteMatcher)
      → said raw r ≡ elim (said_at (path_of raw) r) [
        | none ↦ none
        | some ns ↦ some (if str_eq (path_of raw) "" then [] else ns)
      ]
  unfolding match_url
  said-said_at raw (err e) = refl
  said-said_at raw (ok m) = refl

  -- A configuration compiles exactly if its names are valid and each stands once, and each pattern is a regular
  -- expression; a URL with a path is then said to be in the segments whose patterns match the path, in the
  -- order of the configuration, and a URL without one in none.
  pub compile-said :
      (raw : String) (ss : List SegmentConfig)
      → said raw (compile compile_re ss) ≡ (if is_valid_from [] ss then some (due raw ss) else none)
  unfolding compile
  compile-said raw ss = elim (Bool-cases (is_valid_from [] ss)) [
    | inl valid ↦
        said-said_at raw (compile_from compile_re [] ss)
        ∙ rw (compile_from-said (path_of raw) [] ss, valid) refl
    | inr bad ↦
        said-said_at raw (compile_from compile_re [] ss)
        ∙ rw (compile_from-said (path_of raw) [] ss, bad) refl
  ]
