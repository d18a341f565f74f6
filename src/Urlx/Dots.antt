-- ===== src/Urlx/Dots.antt =====
-- internal/urlx/urlx.go: the removal of dot segments from an escaped path. The output is held from its end. A
-- turn of the loop takes one of fuel, and `remove_dot_segments` gives it one more than the path is long.
pub mod Ends
use rabbot_seo.Base.{
  ℕ, zero, suc, ◌+◌, Bool, true, false, not, ◌||◌, ◌&&◌, Option, none, some, List, [], ◌∷◌, ◌++◌,
  ◌==◌, length, if◌then◌else◌, starts_with,
}
use rabbot_seo.RobotsMeta.{token_eq}

abbrev pub slash : ℕ
slash = 47

abbrev pub dot : ℕ
dot = 46

abbrev pub drop : ℕ → List ℕ → List ℕ
drop zero s = s
drop (suc n) [] = []
drop (suc n) (c ∷ s) = drop n s

-- `removeLastSegment`, of an output that is held from its end.
unfoldable pub remove_last_segment : List ℕ → List ℕ
remove_last_segment [] = []
remove_last_segment (c ∷ out) =
    let rest = remove_last_segment out in if c == slash then out else rest

-- The bytes before the next slash, and those from it.
unfoldable pub until_slash : List ℕ → List ℕ × List ℕ
until_slash [] = ([], [])
until_slash (c ∷ s) =
    let (segment, rest) = until_slash s in if c == slash then ([], c ∷ s) else (c ∷ segment, rest)

abbrev pub push : List ℕ → List ℕ → List ℕ
push [] out = out
push (c ∷ s) out = push s (c ∷ out)

-- A turn of the loop, on the first byte and the others.
unfoldable pub take_turn : ℕ → List ℕ → List ℕ → List ℕ × List ℕ
unfolding until_slash
take_turn c s out =
    let (segment, rest) = until_slash s in
    if starts_with (dot ∷ dot ∷ slash ∷ []) (c ∷ s)
    then (drop 3 (c ∷ s), out)
    else if starts_with (dot ∷ slash ∷ []) (c ∷ s)
    then (drop 2 (c ∷ s), out)
    else if starts_with (slash ∷ dot ∷ slash ∷ []) (c ∷ s)
    then (slash ∷ drop 3 (c ∷ s), out)
    else if token_eq (c ∷ s) (slash ∷ dot ∷ [])
    then (slash ∷ [], out)
    else if starts_with (slash ∷ dot ∷ dot ∷ slash ∷ []) (c ∷ s)
    then (slash ∷ drop 4 (c ∷ s), remove_last_segment out)
    else if token_eq (c ∷ s) (slash ∷ dot ∷ dot ∷ [])
    then (slash ∷ [], remove_last_segment out)
    else if token_eq (c ∷ s) (dot ∷ []) || token_eq (c ∷ s) (dot ∷ dot ∷ [])
    then ([], out)
    else (rest, push (c ∷ segment) out)

-- `none` is out of fuel.
unfoldable pub loop : ℕ → List ℕ → List ℕ → Option (List ℕ)
unfolding take_turn
loop zero s out = none
loop (suc fuel) [] out = some out
loop (suc fuel) (c ∷ s) out = let (s', out') = take_turn c s out in loop fuel s' out'

abbrev pub has_dot : List ℕ → Bool
has_dot [] = false
has_dot (c ∷ s) = (c == dot) || has_dot s

unfoldable pub remove_dot_segments : List ℕ → Option (List ℕ)
unfolding loop
remove_dot_segments path =
    if not (has_dot path)
    then some path
    else elim (loop (suc (length path)) path []) [ none ↦ none | some out ↦ some (push out []) ]
