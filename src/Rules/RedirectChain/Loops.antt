-- ===== src/Rules/RedirectChain/Loops.antt =====
-- What the look-up of seen texts in a redirect chain finds, against a description of a repeated text.
use rabbot_seo.Base.{
  ◌≡◌, refl, String, Bool, true, false, not, ◌&&◌, ◌||◌, some, List, [], ◌∷◌, arith, str_eq, eq_iff,
  codes, contains_string, Option, ◌-◌, length,
}
use rabbot_seo.Rules.RedirectChain.{starts_array, first_repeat, redirect_chain_info}

-- Some text stands in the list twice.
abbrev pub repeats : List String → Bool
repeats [] = false
repeats (u ∷ us) = contains_string us u || repeats us

-- No text is empty.
abbrev pub no_blank : List String → Bool
no_blank [] = true
no_blank (u ∷ us) = not (str_eq u "") && no_blank us

-- Some text of the second list is in the first.
abbrev meets : List String → List String → Bool
meets seen [] = false
meets seen (u ∷ us) = contains_string seen u || meets seen us

str_eq_sym : (u v : String) → str_eq u v ≡ str_eq v u
str_eq_sym u v = ground (arith, eq_iff u v, eq_iff v u)

meets-seen :
    (u : String) (seen us : List String)
    → meets (u ∷ seen) us ≡ (contains_string us u || meets seen us)
unfolding contains_string
meets-seen u seen [] = refl
meets-seen u seen (x ∷ xs) = ground (arith, meets-seen u seen xs, str_eq_sym u x)

first_repeat_lem :
    (seen urls : List String)
    → no_blank urls ≡ true
    → not (str_eq (first_repeat seen urls) "") ≡ (meets seen urls || repeats urls)
unfolding first_repeat
first_repeat_lem seen [] h = ground arith
first_repeat_lem seen (u ∷ us) h =
    ground (arith, first_repeat_lem (u ∷ seen) us, meets-seen u seen us)

meets-none : (us : List String) → meets [] us ≡ false
unfolding contains_string
meets-none [] = refl
meets-none (u ∷ us) = ground (arith, meets-none us)

-- For a stored redirect chain that is an array of texts, none of them empty: its depth is one less than
-- the number of its texts (none for no text), and a repeated text is reported exactly when some text stands
-- in it twice.
pub redirect_chain_info-repeats :
    (hops : String → Option (List String)) (chain : String) (urls : List String)
    → starts_array (codes chain) ≡ true
    → hops chain ≡ some urls
    → no_blank urls ≡ true
    → (url : String) × (redirect_chain_info hops chain ≡ some (length urls - 1, url))
      × (not (str_eq url "") ≡ repeats urls)
unfolding redirect_chain_info
redirect_chain_info-repeats hops chain urls a d h = (
  first_repeat [] urls,
  ground arith,
  ground (arith, first_repeat_lem [] urls h, meets-none urls),
)
