-- ===== src/Notify/Routing.antt =====
-- What routing an alert promises.
use mathlib.Core.List.{Perm, Permᴰ}
use mathlib.Core.Logic.{∥∥₁_elim}
use mathlib.Core.Path.{subst}
use mathlib.Core.Bool.{Bool-set}
use rabbot_seo.Base.{
  String, ◌≡◌, ◌≢◌, ◌↔◌, refl, ◌∙◌, true, false, Option, none, some, List, [], ◌∷◌, arith, eq_iff,
  contains_string, inl, inr, Bool-cases,
}
use rabbot_seo.Notify.{
  NotifyAlert, RouteConfig, Registry, route_matches, route_from, route_target_from, route,
  route_target,
}

abbrev pub targets : Option String → List String
targets none = []
targets (some n) = n ∷ []

route_from-target :
    (names : List String) (rs : List RouteConfig) (a : NotifyAlert)
    → route_from names rs a ≡ targets (route_target_from names rs a)
unfolding route_from route_target_from
route_from-target names [] a = refl
route_from-target names (r ∷ rs) a = ground (arith, route_from-target names rs a)

-- The delivery goes to the very target that the throttle's key names, and to no one else.
pub route-route_target :
    (reg : Registry) (a : NotifyAlert) → route reg a ≡ targets (route_target reg a)
unfolding route route_target
route-route_target reg a = route_from-target reg.by_name reg.routes a

-- Of these routes, the first that matches and names a configured notifier delivers to `n`.
pub data Chosen (names : List String) (a : NotifyAlert) (n : String)
    : List RouteConfig → Type 0 where
  here :
      {r : RouteConfig} {rs : List RouteConfig}
      → route_matches r.match_keys a ≡ true
      → contains_string names r.notifier ≡ true
      → r.notifier ≡ n
      → Chosen names a n (r ∷ rs)
  skip :
      {r : RouteConfig} {rs : List RouteConfig}
      → (route_matches r.match_keys a ≡ true → contains_string names r.notifier ≡ false)
      → Chosen names a n rs
      → Chosen names a n (r ∷ rs)

route_target_from-Chosen :
    (names : List String) (rs : List RouteConfig) (a : NotifyAlert) (n : String)
    → route_target_from names rs a ≡ some n
    → Chosen names a n rs
unfolding route_target_from
route_target_from-Chosen names [] a n h = cc
route_target_from-Chosen names (r ∷ rs) a n h = elim (Bool-cases (route_matches r.match_keys a)) [
  | inr miss ↦ skip (λ e. cc) (route_target_from-Chosen names rs a n (ground arith))
  | inl hit ↦ elim (Bool-cases (contains_string names r.notifier)) [
    | inl known ↦ here hit known (ground arith)
    | inr unknown ↦ skip (λ _. unknown) (route_target_from-Chosen names rs a n (ground arith))
  ]
]

Chosen-route_target_from :
    (names : List String) (a : NotifyAlert) (n : String) {rs : List RouteConfig}
    → Chosen names a n rs
    → route_target_from names rs a ≡ some n
unfolding route_target_from
Chosen-route_target_from names a n (here hit known e) = ground arith
Chosen-route_target_from names a n (skip miss c) =
    let rest = Chosen-route_target_from names a n c in ground arith

-- An alert goes to `n` exactly when the first route that matches it, among those whose notifier
-- is configured, names `n`.
pub route_target_iff :
    (reg : Registry) (a : NotifyAlert) (n : String)
    → (route_target reg a ≡ some n) ↔ Chosen reg.by_name a n reg.routes
unfolding route_target
route_target_iff reg a n =
    (route_target_from-Chosen reg.by_name reg.routes a n, Chosen-route_target_from reg.by_name a n)

cons_match :
    (p : String × String) (m m' : List (String × String)) (a : NotifyAlert)
    → route_matches m a ≡ route_matches m' a
    → route_matches (p ∷ m) a ≡ route_matches (p ∷ m') a
unfolding route_matches
cons_match (k, v) m m' a h = ground arith

swap_match :
    (p q p' q' : String × String) (m : List (String × String)) (a : NotifyAlert)
    → p ≡ q'
    → q ≡ p'
    → route_matches (p ∷ q ∷ m) a ≡ route_matches (p' ∷ q' ∷ m) a
unfolding route_matches
swap_match (k, v) (j, w) p' q' m a e f = rw (← e, ← f) (ground arith)

route_matches-Permᴰ :
    (a : NotifyAlert) {m m' : List (String × String)}
    → Permᴰ m m'
    → route_matches m a ≡ route_matches m' a
route_matches-Permᴰ a Permᴰ.nil = refl
route_matches-Permᴰ a (Permᴰ.cons {a = p} {l₁ = m} {l₂ = m'} e d) =
    subst (λ x. route_matches (p ∷ m) a ≡ route_matches (x ∷ m') a) e
      (cons_match p m m' a (route_matches-Permᴰ a d))
route_matches-Permᴰ a (Permᴰ.swap {a = p} {b = q} {a' = p'} {b' = q'} {l = m} e f) =
    swap_match p q p' q' m a e f
route_matches-Permᴰ a (Permᴰ.trans d d') = route_matches-Permᴰ a d ∙ route_matches-Permᴰ a d'

-- Go iterates over the match map in no fixed order: the verdict is the same in every order.
pub route_matches-Perm :
    (a : NotifyAlert) (m m' : List (String × String))
    → Perm m m'
    → route_matches m a ≡ route_matches m' a
route_matches-Perm a m m' p = ∥∥₁_elim p (Bool-set _ _) (route_matches-Permᴰ a)

-- A key that the code does not know makes a route match nothing.
pub unknown_key :
    (k v : String) (m : List (String × String)) (a : NotifyAlert)
    → k ≢ "severity"
    → k ≢ "site"
    → k ≢ "change_type"
    → k ≢ "segment"
    → route_matches ((k, v) ∷ m) a ≡ false
unfolding route_matches
unknown_key k v m a h1 h2 h3 h4 =
    ground (arith, eq_iff k "severity", eq_iff k "site", eq_iff k "change_type", eq_iff k "segment")
