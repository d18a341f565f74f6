-- ===== src/Verify/Surfaces.antt =====
-- What the surfaces of a site show, and the answers that are read of them.
use text.Mathlib.TextLemmas.{cons-append, append-eq-nil_iff}
use rabbot_seo.Base.{
  ℕ, ◌≡◌, refl, ◌∙◌, ap, String, Bool, true, false, not, ◌&&◌, ◌||◌, Option, none, some, List, [],
  ◌∷◌, ◌==◌, str_eq, eq_iff, ◌<>◌, trim_space, has_prefix, arith, Bool-cases, inl, inr,
}
use rabbot_seo.Verify.{
  State, verified, Reason, found, World, plain_record, dns_prefix, Answer, match_records,
  match_metas, read_file, read_elements, read_home, read_records,
}

abbrev pub is_verified : State → Bool
is_verified verified = true
is_verified _ = false

abbrev pub is_found : Reason → Bool
is_found found = true
is_found _ = false

-- Some record of the domain is the token behind the prefix.
abbrev pub some_record : String → List String → Bool
some_record want [] = false
some_record want (r ∷ rs) = str_eq (plain_record r) want || some_record want rs

abbrev pub some_meta : String → List (Option String) → Bool
some_meta token [] = false
some_meta token (none ∷ ms) = some_meta token ms
some_meta token (some content ∷ ms) = str_eq (trim_space content) token || some_meta token ms

has_prefix-append : (p t : String) → has_prefix p (p <> t) ≡ true
unfolding has_prefix
has_prefix-append String.[] t = refl
has_prefix-append (String.◌∷◌ c p) t =
    rw (cons-append c p t) (ground (arith, has_prefix-append p t))

pub append_nonempty : (p t : String) → str_eq p "" ≡ false → str_eq (p <> t) "" ≡ false
append_nonempty p t h = elim (Bool-cases (str_eq (p <> t) "")) [
  | inl same ↦
      let empty = (append-eq-nil_iff.0 ((eq_iff (p <> t) "").0 same)).0 in
      let h' = (eq_iff p "").1 empty in cc
  | inr other ↦ other
]

match_records-found :
    (token : String) (present : Bool) (rs : List String)
    → is_found (match_records (dns_prefix <> token) present rs)
      ≡ some_record (dns_prefix <> token) rs
unfolding match_records
match_records-found token present [] = ground arith
match_records-found token present (r ∷ rs) =
    elim (Bool-cases (str_eq (plain_record r) (dns_prefix <> token))) [
      | inl same ↦
          let prefixed : has_prefix dns_prefix (plain_record r) ≡ true =
            ap (λ x. has_prefix dns_prefix x)
              ((eq_iff (plain_record r) (dns_prefix <> token)).0 same)
            ∙ has_prefix-append dns_prefix token in
          rw (prefixed, same) refl
      | inr other ↦ elim (Bool-cases (has_prefix dns_prefix (plain_record r))) [
        | inl prefixed ↦ rw (prefixed, other) (match_records-found token true rs)
        | inr plain ↦ rw (plain, other) (match_records-found token present rs)
      ]
    ]

match_metas-found :
    (token : String) (present : Bool) (ms : List (Option String))
    → is_found (match_metas token present ms) ≡ some_meta token ms
unfolding match_metas
match_metas-found token present [] = ground arith
match_metas-found token present (none ∷ ms) = match_metas-found token present ms
match_metas-found token present (some c ∷ ms) = ground (arith, match_metas-found token true ms)

-- An answer that proves control.
abbrev pub proves : Answer → Bool
proves (reason, failed) = not failed && is_found reason

-- The surface has the token, read without a redirect.
abbrev pub file_shows : String → Option (ℕ × String) → Bool
file_shows token none = false
file_shows token (some (status, body)) = (status == 200) && str_eq (trim_space body) token

abbrev pub elements_show : String → Option (List (Option String)) → Bool
elements_show token none = false
elements_show token (some ms) = some_meta token ms

abbrev pub home_shows : World → String → Option (ℕ × String) → Bool
home_shows w token none = false
home_shows w token (some (status, body)) = (status == 200) && elements_show token (w.metas body)

abbrev pub domain_shows : String → Option (List String) → Bool
domain_shows token none = false
domain_shows token (some rs) = some_record (dns_prefix <> token) rs

pub file-shows :
    (token : String) (o : Option (ℕ × String))
    → str_eq token "" ≡ false
    → proves (read_file token o) ≡ file_shows token o
unfolding read_file
file-shows token none h = refl
file-shows token (some (status, body)) h =
    ground (arith, eq_iff (trim_space body) token, eq_iff (trim_space body) "", eq_iff token "")

pub elements-show :
    (token : String) (o : Option (List (Option String)))
    → proves (read_elements token o) ≡ elements_show token o
unfolding read_elements
elements-show token none = refl
elements-show token (some ms) = match_metas-found token false ms

pub home-shows :
    (w : World) (token : String) (o : Option (ℕ × String))
    → proves (read_home w token o) ≡ home_shows w token o
unfolding read_home
home-shows w token none = refl
home-shows w token (some (status, body)) = ground (arith, elements-show token (w.metas body))

pub domain-shows :
    (token : String) (o : Option (List String))
    → proves (read_records token o) ≡ domain_shows token o
unfolding read_records
domain-shows token none = refl
domain-shows token (some rs) = match_records-found token false rs
