-- ===== src/Rules/RedirectChain.antt =====
-- RedirectChainInfo of internal/rules/dormant_signals.go, which the default rules and the recovery of
-- signals in internal/scheduler/process.go share. `json.Unmarshal` of the trimmed text is an argument.
pub mod Loops
use rabbot_seo.Base.{
  ℕ, ◌-◌, ◌==◌, String, Bool, false, Option, none, some, List, [], ◌∷◌, if◌then◌else◌, codes,
  length, contains_string, is_space,
}

-- The trimmed text starts with `[`.
unfoldable pub starts_array : List ℕ → Bool
starts_array [] = false
starts_array (c ∷ cs) = if is_space c then starts_array cs else c == 91

-- The first text that stands in the list a second time, or the empty text.
unfoldable pub first_repeat : List String → List String → String
first_repeat seen [] = ""
first_repeat seen (u ∷ us) = if contains_string seen u then u else first_repeat (u ∷ seen) us

-- The depth of a stored redirect chain and the text that it repeats.
unfoldable pub redirect_chain_info : (String → Option (List String)) → String → Option (ℕ × String)
unfolding starts_array first_repeat
redirect_chain_info hops chain =
    if starts_array (codes chain)
    then elim (hops chain) [
      | none ↦ none
      | some urls ↦ some (length urls - 1, first_repeat [] urls)
    ]
    else none
