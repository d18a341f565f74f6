-- ===== src/RobotsMeta.antt =====
-- internal/robotsmeta/robotsmeta.go: the directives of a robots meta value. A text is the list of
-- its code points; lower case is that of ASCII, where every known directive lies.
pub mod Tokens
use rabbot_seo.Base.{
  ℕ, ◌+◌, ◌≡◌, String, Bool, true, false, not, ◌&&◌, ◌||◌, List, [], ◌∷◌, leb, ◌==◌, if◌then◌else◌,
  codes,
}

abbrev pub Token : Type 0
Token = List ℕ

-- comma, colon, space, \t, \n, \v, \f, \r
unfoldable pub is_separator : ℕ → Bool
is_separator c = (c == 44) || (c == 58) || (c == 32) || (leb 9 c && leb c 13)

unfoldable pub lower : ℕ → ℕ
lower c = if leb 65 c && leb c 90 then c + 32 else c

unfoldable pub lower_token : Token → Token
unfolding lower
lower_token [] = []
lower_token (c ∷ cs) = lower c ∷ lower_token cs

unfoldable pub token_eq : Token → Token → Bool
token_eq [] [] = true
token_eq [] (d ∷ ds) = false
token_eq (c ∷ cs) [] = false
token_eq (c ∷ cs) (d ∷ ds) = (c == d) && token_eq cs ds

-- A token is closed at a separator, unless it is empty.
abbrev pub close_token : Token → List Token → List Token
close_token [] ts = ts
close_token (c ∷ cs) ts = (c ∷ cs) ∷ ts

-- `strings.FieldsFunc`: the token that the value starts with, and those behind its separator.
unfoldable pub split : List ℕ → Token × List Token
unfolding is_separator
split [] = ([], [])
split (c ∷ cs) =
    let (first, rest) = split cs in
    if is_separator c then ([], close_token first rest) else (c ∷ first, rest)

unfoldable pub fields : List ℕ → List Token
unfolding split
fields cs = let (first, rest) = split cs in close_token first rest

unfoldable pub has_token_exact : Token → List Token → Bool
unfolding token_eq
has_token_exact t [] = false
has_token_exact t (u ∷ us) = if token_eq u t then true else has_token_exact t us

abbrev pub known_directives : List Token
known_directives =
    codes "all"
    ∷ codes "none"
    ∷ codes "index"
    ∷ codes "noindex"
    ∷ codes "follow"
    ∷ codes "nofollow"
    ∷ codes "noarchive"
    ∷ codes "nosnippet"
    ∷ codes "noimageindex"
    ∷ codes "notranslate"
    ∷ codes "nocache"
    ∷ codes "indexifembedded"
    ∷ codes "max-snippet"
    ∷ codes "max-image-preview"
    ∷ codes "max-video-preview"
    ∷ codes "unavailable_after"
    ∷ []

unfoldable pub lower_tokens : List Token → List Token
unfolding lower_token
lower_tokens [] = []
lower_tokens (t ∷ ts) = lower_token t ∷ lower_tokens ts

-- A first token that is no directive names a crawler.
unfoldable pub strip_agent : List Token → List Token
unfolding has_token_exact
strip_agent [] = []
strip_agent (t ∷ ts) = if has_token_exact t known_directives then t ∷ ts else ts

unfoldable pub parse : List ℕ → List Token
unfolding fields lower_tokens strip_agent
parse value = strip_agent (lower_tokens (fields value))

unfoldable pub is_noindex : List ℕ → Bool
unfolding parse has_token_exact
is_noindex value =
    has_token_exact (codes "noindex") (parse value) || has_token_exact (codes "none") (parse value)
