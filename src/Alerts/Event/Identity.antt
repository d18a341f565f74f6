-- ===== src/Alerts/Event/Identity.antt =====
-- Which events share an incident: the identity that a group fingerprint stands for.
use Prim.Native.Char.{code}
use text.Mathlib.TextEquality.{Char-path}
use rabbot_seo.Base.{
  ℕ, ◌≡◌, ◌↔◌, refl, ap, String, Bool, true, false, List, [], ◌∷◌, ◌++◌, arith, codes, ◌==◌,
  if◌then◌else◌,
}
use rabbot_seo.Model.{Severity, critical, warning, info, severity_string}
use rabbot_seo.Alerts.Event.{Event, fingerprint_input, fingerprint, group_fingerprint}

abbrev pub has_nul : List ℕ → Bool
has_nul [] = false
has_nul (c ∷ cs) = if c == 0 then true else has_nul cs

-- A text without a zero character.
abbrev pub NulFree : String → Type 0
NulFree s = has_nul (codes s) ≡ false

codes_injective : (s t : String) → codes s ≡ codes t → s ≡ t
codes_injective String.[] String.[] h = refl
codes_injective String.[] (String.◌∷◌ d t) h = cc
codes_injective (String.◌∷◌ c s) String.[] h = cc
codes_injective (String.◌∷◌ c s) (String.◌∷◌ d t) h =
    let heads : code c ≡ code d = cc in
    let tails : codes s ≡ codes t = cc in
    λ i. String.◌∷◌ (Char-path c d heads i) (codes_injective s t tails i)

no_nul : (x : ℕ) (xs : List ℕ) → has_nul (x ∷ xs) ≡ false → has_nul xs ≡ false
no_nul x xs h = ground arith

-- A zero ends a field: what stands before the first one, and what behind it.
cut :
    (xs ys r r' : List ℕ)
    → has_nul xs ≡ false
    → has_nul ys ≡ false
    → xs ++ 0 ∷ r ≡ ys ++ 0 ∷ r'
    → (xs ≡ ys) × (r ≡ r')
cut [] [] r r' a b h = (refl, cc)
cut [] (y ∷ ys) r r' a b h = let zero_head : 0 ≡ y = cc in ground (arith, zero_head)
cut (x ∷ xs) [] r r' a b h = let zero_head : x ≡ 0 = cc in ground (arith, zero_head)
cut (x ∷ xs) (y ∷ ys) r r' a b h =
    let heads : x ≡ y = cc in
    let rest : xs ++ 0 ∷ r ≡ ys ++ 0 ∷ r' = cc in
    let (same, behind) = cut xs ys r r' (no_nul x xs a) (no_nul y ys b) rest in (cc, behind)

severity_string_injective :
    (s t : Severity) → codes (severity_string s) ≡ codes (severity_string t) → s ≡ t
severity_string_injective critical critical h = refl
severity_string_injective critical warning h = cc
severity_string_injective critical info h = cc
severity_string_injective warning critical h = cc
severity_string_injective warning warning h = refl
severity_string_injective warning info h = cc
severity_string_injective info critical h = cc
severity_string_injective info warning h = cc
severity_string_injective info info h = refl

inputs :
    (e f : Event)
    → NulFree e.site
    → NulFree f.site
    → NulFree e.change_type
    → NulFree f.change_type
    → fingerprint_input (record e { url = "" }) ≡ fingerprint_input (record f { url = "" })
    → (e.site ≡ f.site) × (e.change_type ≡ f.change_type) × (e.severity ≡ f.severity)
unfolding fingerprint_input
inputs e f a b c d h =
    let (sites, rest) = cut (codes e.site) (codes f.site) _ _ a b h in
    let behind : codes e.change_type ++ 0 ∷ codes (severity_string e.severity)
        ≡ codes f.change_type ++ 0 ∷ codes (severity_string f.severity) =
      cc in
    let (types, severities) = cut (codes e.change_type) (codes f.change_type) _ _ c d behind in
    (
      codes_injective e.site f.site sites,
      codes_injective e.change_type f.change_type types,
      severity_string_injective e.severity f.severity severities,
    )

-- Where the hash tells different inputs apart and no text holds a zero character: two events share an
-- incident's fingerprint exactly if they have the same site, change type and severity. The page and
-- its segments are of no account.
pub same_incident_iff :
    (sha256_hex : List ℕ → String)
    → ((xs ys : List ℕ) → sha256_hex xs ≡ sha256_hex ys → xs ≡ ys)
    → (e f : Event) → NulFree e.site
    → NulFree f.site
    → NulFree e.change_type
    → NulFree f.change_type
    → (group_fingerprint sha256_hex e ≡ group_fingerprint sha256_hex f)
      ↔ ((e.site ≡ f.site) × (e.change_type ≡ f.change_type) × (e.severity ≡ f.severity))
unfolding group_fingerprint fingerprint
same_incident_iff sha256_hex injective e f a b c d = (
  λ h. inputs e f a b c d (injective _ _ h),
  λ (site, change_type, severity).
      ap sha256_hex (unfold fingerprint_input in rw (site, change_type, severity) refl),
)
