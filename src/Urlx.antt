-- ===== src/Urlx.antt =====
-- internal/urlx/urlx.go: the percent-encoding of a path or a query, over the bytes of the text, and the
-- folding of default ports and of a leading `www.` label. `url.Parse` is the standard library's.
pub mod Percent
pub mod Dots
use rabbot_seo.Base.{
  ℕ, ◌+◌, ◌-◌, ◌*◌, Bool, true, false, not, ◌&&◌, ◌||◌, Option, none, some, List, [], ◌∷◌, ◌++◌,
  ltb, leb, ◌==◌, if◌then◌else◌,
}

abbrev pub percent : ℕ
percent = 37

unfoldable pub is_unreserved : ℕ → Bool
is_unreserved b =
    (leb 65 b && leb b 90)
    || (leb 97 b && leb b 122)
    || (leb 48 b && leb b 57)
    || (b == 45)
    || (b == 46)
    || (b == 95)
    || (b == 126)

unfoldable pub decode_unreserved : ℕ → Bool
unfolding is_unreserved
decode_unreserved b = not (b == 46) && is_unreserved b

unfoldable pub from_hex : ℕ → Option ℕ
from_hex c =
    if leb 48 c && leb c 57
    then some (c - 48)
    else if leb 97 c && leb c 102
    then some (c - 97 + 10)
    else if leb 65 c && leb c 70
    then some (c - 65 + 10)
    else none

-- `"0123456789ABCDEF"[nibble]`
unfoldable pub to_upper_hex : ℕ → ℕ
to_upper_hex n = if ltb n 10 then n + 48 else n - 10 + 65

-- Two hex digits, as nibbles.
unfoldable pub hex_pair : ℕ → ℕ → Option (ℕ × ℕ)
hex_pair h l = elim (from_hex h) [
  | none ↦ none
  | some a ↦ elim (from_hex l) [ none ↦ none | some b ↦ some (a, b) ]
]

-- What is written for a well-formed escape.
unfoldable pub write_escape : ℕ → ℕ → List ℕ → List ℕ
write_escape a b rest =
    if decode_unreserved (a * 16 + b)
    then (a * 16 + b) ∷ rest
    else percent ∷ to_upper_hex a ∷ to_upper_hex b ∷ rest

-- What is written for a `%` that begins no escape: `%25`.
abbrev pub write_percent : List ℕ → List ℕ
write_percent rest = percent ∷ 50 ∷ 53 ∷ rest

abbrev pub write_byte : ℕ → List ℕ → List ℕ
write_byte c rest = if c == percent then write_percent rest else c ∷ rest

-- The loop of `normalizePercentEncoding`, past its test for a `%`.
unfoldable pub rewrite : List ℕ → List ℕ
rewrite [] = []
rewrite (c ∷ []) = write_byte c []
rewrite (c ∷ h ∷ []) = write_byte c (rewrite (h ∷ []))
rewrite (c ∷ h ∷ l ∷ s) =
    let next = rewrite (h ∷ l ∷ s) in
    let past = rewrite s in
    if c == percent
    then elim (hex_pair h l) [ none ↦ write_percent next | some (a, b) ↦ write_escape a b past ]
    else c ∷ next

unfoldable pub has_percent : List ℕ → Bool
has_percent [] = false
has_percent (c ∷ s) = (c == percent) || has_percent s

unfoldable pub normalize_percent_encoding : List ℕ → List ℕ
normalize_percent_encoding s = if has_percent s then rewrite s else s
