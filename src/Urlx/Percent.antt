-- ===== src/Urlx/Percent.antt =====
-- The normal form of percent-encodings: it is stable, and it stands for the same octets.
use rabbot_seo.Base.{
  ℕ, ◌+◌, ◌*◌, ◌<◌, ◌≡◌, refl, true, false, none, some, List, [], ◌∷◌, ◌∙◌, ap, ◌==◌, if◌then◌else◌,
  arith, Option-cases, Bool-cases, inl, inr,
}
use rabbot_seo.Urlx.{
  percent, decode_unreserved, is_unreserved, from_hex, to_upper_hex, hex_pair, write_escape,
  rewrite, has_percent, normalize_percent_encoding, write_percent, write_byte,
}

from_hex_bound : (c a : ℕ) → from_hex c ≡ some a → a < 16
unfolding from_hex
from_hex_bound c a h = ground arith

from_hex-to_upper_hex : (a : ℕ) → a < 16 → from_hex (to_upper_hex a) ≡ some a
unfolding from_hex to_upper_hex
from_hex-to_upper_hex a h = ground arith

hex_pair_bound : (h l a b : ℕ) → hex_pair h l ≡ some (a, b) → (a < 16) × (b < 16)
unfolding hex_pair
hex_pair_bound h l a b e = ground (arith, from_hex_bound h a, from_hex_bound l b)

hex_pair-upper :
    (a b : ℕ) → a < 16 → b < 16 → hex_pair (to_upper_hex a) (to_upper_hex b) ≡ some (a, b)
unfolding hex_pair
hex_pair-upper a b p q = ground (arith, from_hex-to_upper_hex a, from_hex-to_upper_hex b)

hex_25 : hex_pair 50 53 ≡ some (2, 5)
unfolding hex_pair from_hex
hex_25 = refl

kept_25 : (rest : List ℕ) → write_escape 2 5 rest ≡ write_percent rest
unfolding write_escape decode_unreserved is_unreserved to_upper_hex
kept_25 rest = refl

decoded-ne-percent : (n : ℕ) → decode_unreserved n ≡ true → (n == percent) ≡ false
unfolding decode_unreserved is_unreserved
decoded-ne-percent n h = ground arith

rewrite-byte : (c : ℕ) (s : List ℕ) → (c == percent) ≡ false → rewrite (c ∷ s) ≡ c ∷ rewrite s
unfolding rewrite
rewrite-byte c [] h = ground arith
rewrite-byte c (h ∷ []) e = ground arith
rewrite-byte c (h ∷ l ∷ s) e = ground arith

rewrite-escape :
    (h l a b : ℕ) (s : List ℕ)
    → hex_pair h l ≡ some (a, b)
    → rewrite (percent ∷ h ∷ l ∷ s) ≡ write_escape a b (rewrite s)
unfolding rewrite
rewrite-escape h l a b s e = rw e

rewrite-percent : (s : List ℕ) → rewrite (write_percent s) ≡ write_percent (rewrite s)
rewrite-percent s = rewrite-escape 50 53 2 5 s hex_25 ∙ kept_25 (rewrite s)

rewrite-written :
    (a b : ℕ) (s : List ℕ)
    → a < 16
    → b < 16
    → rewrite (write_escape a b s) ≡ write_escape a b (rewrite s)
unfolding write_escape
rewrite-written a b s p q = elim (Bool-cases (decode_unreserved (a * 16 + b))) [
  | inl literal ↦ rw literal (rewrite-byte (a * 16 + b) s (decoded-ne-percent (a * 16 + b) literal))
  | inr kept ↦ rw kept (
      rewrite-escape (to_upper_hex a) (to_upper_hex b) a b s (hex_pair-upper a b p q)
      ∙ (unfold write_escape in rw kept refl))
]

rewrite-byte_self : (c : ℕ) (s : List ℕ) → rewrite (write_byte c s) ≡ write_byte c (rewrite s)
rewrite-byte_self c s = elim (Bool-cases (c == percent)) [
  | inl same ↦ rw same (rewrite-percent s)
  | inr other ↦ rw other (rewrite-byte c s other)
]

rewrite_twice : (s : List ℕ) → rewrite (rewrite s) ≡ rewrite s
unfolding rewrite
rewrite_twice [] = refl
rewrite_twice (c ∷ []) = rewrite-byte_self c []
rewrite_twice (c ∷ h ∷ []) =
    rewrite-byte_self c (rewrite (h ∷ [])) ∙ ap (write_byte c) (rewrite_twice (h ∷ []))
rewrite_twice (c ∷ h ∷ l ∷ s) = elim (Bool-cases (c == percent)) [
  | inr other ↦
      rw other
        (rewrite-byte c (rewrite (h ∷ l ∷ s)) other ∙ ap (λ t. c ∷ t) (rewrite_twice (h ∷ l ∷ s)))
  | inl same ↦ elim (Option-cases (hex_pair h l)) [
    | inl bad ↦
        rw (same, bad)
          (rewrite-percent (rewrite (h ∷ l ∷ s))
            ∙ ap (λ t. write_percent t) (rewrite_twice (h ∷ l ∷ s)))
    | inr ((a, b), good) ↦
        rw (same, good)
          (rewrite-written a b (rewrite s) (hex_pair_bound h l a b good).0
              (hex_pair_bound h l a b good).1
            ∙ ap (write_escape a b) (rewrite_twice s))
  ]
]

rewrite-plain : (s : List ℕ) → has_percent s ≡ false → rewrite s ≡ s
unfolding has_percent
rewrite-plain [] h = unfold rewrite in refl
rewrite-plain (c ∷ s) h =
    rewrite-byte c s (ground arith) ∙ ap (λ t. c ∷ t) (rewrite-plain s (ground arith))

normalize-rewrite : (s : List ℕ) → normalize_percent_encoding s ≡ rewrite s
unfolding normalize_percent_encoding
normalize-rewrite s = ground (arith, rewrite-plain s)

-- The specification: the octets that a text stands for. An escape is its octet, any other byte itself.
abbrev pub octets : List ℕ → List ℕ
octets [] = []
octets (c ∷ []) = c ∷ []
octets (c ∷ h ∷ []) = c ∷ octets (h ∷ [])
octets (c ∷ h ∷ l ∷ s) =
    let next = c ∷ octets (h ∷ l ∷ s) in
    let past = octets s in
    if c == percent
    then elim (hex_pair h l) [ none ↦ next | some (a, b) ↦ (a * 16 + b) ∷ past ]
    else next

octets-byte : (c : ℕ) (s : List ℕ) → (c == percent) ≡ false → octets (c ∷ s) ≡ c ∷ octets s
octets-byte c [] e = refl
octets-byte c (h ∷ []) e = refl
octets-byte c (h ∷ l ∷ s) e = rw e

octets-percent : (s : List ℕ) → octets (write_percent s) ≡ percent ∷ octets s
octets-percent s = rw hex_25

octets-byte_self : (c : ℕ) (s : List ℕ) → octets (write_byte c s) ≡ c ∷ octets s
octets-byte_self c s = elim (Bool-cases (c == percent)) [
  | inl same ↦ rw same (octets-percent s ∙ ground arith)
  | inr other ↦ rw other (octets-byte c s other)
]

octets-written :
    (a b : ℕ) (s : List ℕ) → a < 16 → b < 16 → octets (write_escape a b s) ≡ (a * 16 + b) ∷ octets s
unfolding write_escape
octets-written a b s p q = elim (Bool-cases (decode_unreserved (a * 16 + b))) [
  | inl literal ↦ rw literal (octets-byte (a * 16 + b) s (decoded-ne-percent (a * 16 + b) literal))
  | inr kept ↦ rw (kept, hex_pair-upper a b p q)
]

octets-rewrite : (s : List ℕ) → octets (rewrite s) ≡ octets s
unfolding rewrite
octets-rewrite [] = refl
octets-rewrite (c ∷ []) = octets-byte_self c []
octets-rewrite (c ∷ h ∷ []) =
    octets-byte_self c (rewrite (h ∷ [])) ∙ ap (λ t. c ∷ t) (octets-rewrite (h ∷ []))
octets-rewrite (c ∷ h ∷ l ∷ s) = elim (Bool-cases (c == percent)) [
  | inr other ↦
      rw other
        (octets-byte c (rewrite (h ∷ l ∷ s)) other ∙ ap (λ t. c ∷ t) (octets-rewrite (h ∷ l ∷ s)))
  | inl same ↦ elim (Option-cases (hex_pair h l)) [
    | inl bad ↦
        rw (same, bad)
          (octets-percent (rewrite (h ∷ l ∷ s)) ∙ ground (arith, octets-rewrite (h ∷ l ∷ s)))
    | inr ((a, b), good) ↦
        rw (same, good)
          (octets-written a b (rewrite s) (hex_pair_bound h l a b good).0
              (hex_pair_bound h l a b good).1
            ∙ ap (λ t. (a * 16 + b) ∷ t) (octets-rewrite s))
  ]
]

-- Normalising twice is normalising once, and the normal form of a text stands for the octets that the text
-- stands for.
pub normal_form :
    (s : List ℕ)
    → (normalize_percent_encoding (normalize_percent_encoding s) ≡ normalize_percent_encoding s)
      × (octets (normalize_percent_encoding s) ≡ octets s)
normal_form s = (
  rw (normalize-rewrite s) (normalize-rewrite (rewrite s) ∙ rewrite_twice s),
  rw (normalize-rewrite s) (octets-rewrite s),
)
