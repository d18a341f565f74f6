-- ===== src/Config/Allowlist.antt =====
-- internal/config/allowlist.go: the settings that the control plane may change.
use mathlib.Core.Path.{subst}
use rabbot_seo.Base.{
  ◌≡◌, ◌↔◌, refl, String, Bool, true, false, ◌||◌, Option, none, some, List, [], ◌∷◌, if◌then◌else◌,
  str_eq, eq_iff, Bool-cases, inl, inr, contains_string, has_prefix, arith,
}

abbrev pub allowed_config_keys : List String
allowed_config_keys =
    "log.level" ∷ "defaults.min_interval" ∷ "defaults.max_interval"
    ∷ "defaults.discovery.max_pages_per_site" ∷ "crawler.hydration.enabled" ∷ "graph.enabled"
    ∷ "graph.sweep_interval" ∷ []

-- Why a key is denied.
pub data Denial : Type 0 where
  throttle_floor notifiers location : Denial

pub deny_config_key : String → Option Denial
unfolding has_prefix
deny_config_key key =
    if has_prefix "defaults.unverified_throttle." key
    then some throttle_floor
    else if has_prefix "notifiers." key
    then some notifiers
    else if has_prefix "database." key || str_eq key "data_dir"
    then some location
    else none

pub data KeyError : Type 0 where
  denied : Denial → KeyError
  not_listed : KeyError

-- `none` is no error.
pub allow_config_key : String → Option KeyError
unfolding contains_string
allow_config_key key = elim (deny_config_key key) [
  | some reason ↦ some (denied reason)
  | none ↦ if contains_string allowed_config_keys key then none else some not_listed
]

abbrev pub is_denied : Option KeyError → Bool
is_denied (some (denied reason)) = true
is_denied _ = false

-- The keys that no allow-list can make settable.
abbrev pub in_denied_family : String → Bool
in_denied_family key =
    has_prefix "defaults.unverified_throttle." key
    || has_prefix "notifiers." key
    || has_prefix "database." key
    || str_eq key "data_dir"

abbrev All : (String → Type 0) → List String → Type 0
All P [] = Unit
All P (x ∷ xs) = P x × All P xs

contains-All :
    (P : String → Type 0) (xs : List String) (v : String)
    → All P xs
    → contains_string xs v ≡ true
    → P v
unfolding contains_string
contains-All P [] v ps h = ground arith
contains-All P (x ∷ xs) v ps h = elim (Bool-cases (str_eq x v)) [
  | inl same ↦ subst P ((eq_iff x v).0 same) ps.0
  | inr other ↦ contains-All P xs v ps.1 (rw other at h)
]

abbrev IsAllowed : String → Type 0
IsAllowed key = allow_config_key key ≡ none

denied_family : (key : String) → is_denied (allow_config_key key) ≡ in_denied_family key
unfolding allow_config_key deny_config_key
denied_family key = ground arith

allowed-listed :
    (key : String) → allow_config_key key ≡ none → contains_string allowed_config_keys key ≡ true
unfolding allow_config_key
allowed-listed key h = ground arith

listed-IsAllowed : All IsAllowed allowed_config_keys
unfolding allow_config_key deny_config_key has_prefix contains_string
listed-IsAllowed = (refl, (refl, (refl, (refl, (refl, (refl, (refl, tt)))))))

-- The control plane may set exactly the listed keys, so no rule of denial hides one of them, and it answers with a
-- reason of denial exactly for the keys of a denied family, listed or not.
pub allow_config_key_iff :
    (key : String)
    → (allow_config_key key ≡ none ↔ contains_string allowed_config_keys key ≡ true)
      × (is_denied (allow_config_key key) ≡ in_denied_family key)
allow_config_key_iff key = (
  (allowed-listed key, contains-All IsAllowed allowed_config_keys key listed-IsAllowed),
  denied_family key,
)
