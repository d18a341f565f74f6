-- ===== src/Urlx/Dots/Ends.antt =====
-- The loop that removes dot segments ends, and makes no path longer.
use rabbot_seo.Base.{
  ℕ, zero, suc, ◌+◌, ◌≤◌, ◌<◌, ◌≡◌, refl, true, ◌||◌, some, List, [], ◌∷◌, ◌==◌, length,
  if◌then◌else◌, starts_with, arith, Bool-cases, inl, inr,
}
use rabbot_seo.RobotsMeta.{token_eq}
use rabbot_seo.Urlx.Dots.{
  slash, dot, drop, remove_last_segment, until_slash, push, take_turn, loop, has_dot,
  remove_dot_segments,
}

length-drop : (n : ℕ) (s : List ℕ) → length (drop n s) ≤ length s
length-drop zero s = omega arith
length-drop (suc n) [] = omega arith
length-drop (suc n) (c ∷ s) = omega (arith, length-drop n s)

drop_lt : (n : ℕ) (s : List ℕ) → 0 < length s → length (drop (suc n) s) < length s
drop_lt n [] h = h
drop_lt n (c ∷ s) h = omega (arith, length-drop n s)

two_long : (a b c : ℕ) (p s : List ℕ) → starts_with (a ∷ b ∷ p) (c ∷ s) ≡ true → 0 < length s
unfolding starts_with
two_long a b c p [] h = ground arith
two_long a b c p (d ∷ s) h = omega arith

two_equal : (a b c : ℕ) (p s : List ℕ) → token_eq (c ∷ s) (a ∷ b ∷ p) ≡ true → 0 < length s
unfolding token_eq
two_equal a b c p [] h = ground arith
two_equal a b c p (d ∷ s) h = omega arith

length-push : (s out : List ℕ) → length (push s out) ≡ length s + length out
length-push [] out = omega arith
length-push (c ∷ s) out = omega (arith, length-push s (c ∷ out))

length-until_slash : (s : List ℕ) → length (until_slash s).0 + length (until_slash s).1 ≡ length s
unfolding until_slash
length-until_slash [] = refl
length-until_slash (c ∷ s) = elim (Bool-cases (c == slash)) [
  | inl at ↦ rw at (omega arith)
  | inr not_yet ↦ rw not_yet (omega (arith, length-until_slash s))
]

length-remove_last : (out : List ℕ) → length (remove_last_segment out) ≤ length out
unfolding remove_last_segment
length-remove_last [] = omega arith
length-remove_last (c ∷ out) = ground (arith, length-remove_last out)

-- A turn leaves less to read, and does not read more than it writes.
Advances : ℕ → List ℕ → List ℕ → List ℕ × List ℕ → Type 0
Advances c s out t =
    (length t.0 < suc (length s)) × (length t.0 + length t.1 ≤ suc (length s) + length out)

later_turn : ℕ → List ℕ → List ℕ → List ℕ × List ℕ
later_turn c s out =
    if starts_with (slash ∷ dot ∷ dot ∷ slash ∷ []) (c ∷ s)
    then (slash ∷ drop 4 (c ∷ s), remove_last_segment out)
    else if token_eq (c ∷ s) (slash ∷ dot ∷ dot ∷ [])
    then (slash ∷ [], remove_last_segment out)
    else if token_eq (c ∷ s) (dot ∷ []) || token_eq (c ∷ s) (dot ∷ dot ∷ [])
    then ([], out)
    else ((until_slash s).1, push (c ∷ (until_slash s).0) out)

later_turn-Advances : (c : ℕ) (s out : List ℕ) → Advances c s out (later_turn c s out)
unfolding Advances later_turn
later_turn-Advances c s out =
    elim (Bool-cases (starts_with (slash ∷ dot ∷ dot ∷ slash ∷ []) (c ∷ s))) [
      | inl y ↦
          let d = drop_lt 2 s (two_long slash dot c (dot ∷ slash ∷ []) s y) in
          let r = length-remove_last out in rw y (omega (arith, d), omega (arith, d, r))
      | inr n1 ↦ elim (Bool-cases (token_eq (c ∷ s) (slash ∷ dot ∷ dot ∷ []))) [
        | inl y ↦
            let l = two_equal slash dot c (dot ∷ []) s y in
            let r = length-remove_last out in rw (n1, y) (omega (arith, l), omega (arith, l, r))
        | inr n2 ↦
            elim (Bool-cases (token_eq (c ∷ s) (dot ∷ []) || token_eq (c ∷ s) (dot ∷ dot ∷ []))) [
              | inl y ↦ rw (n1, n2, y) (omega arith, omega arith)
              | inr n3 ↦
                  let u = length-until_slash s in
                  let p = length-push (c ∷ (until_slash s).0) out in
                  rw (n1, n2, n3) (omega (arith, u), omega (arith, u, p))
            ]
      ]
    ]

take_turn-Advances : (c : ℕ) (s out : List ℕ) → Advances c s out (take_turn c s out)
unfolding Advances take_turn later_turn starts_with
take_turn-Advances c s out = elim (Bool-cases (starts_with (dot ∷ dot ∷ slash ∷ []) (c ∷ s))) [
  | inl y ↦ rw y (omega (arith, length-drop 2 s), omega (arith, length-drop 2 s))
  | inr n1 ↦ elim (Bool-cases (starts_with (dot ∷ slash ∷ []) (c ∷ s))) [
    | inl y ↦ rw (n1, y) (omega (arith, length-drop 1 s), omega (arith, length-drop 1 s))
    | inr n2 ↦ elim (Bool-cases (starts_with (slash ∷ dot ∷ slash ∷ []) (c ∷ s))) [
      | inl y ↦
          let d = drop_lt 1 s (two_long slash dot c (slash ∷ []) s y) in
          rw (n1, n2, y) (omega (arith, d), omega (arith, d))
      | inr n3 ↦ elim (Bool-cases (token_eq (c ∷ s) (slash ∷ dot ∷ []))) [
        | inl y ↦
            let l = two_equal slash dot c [] s y in
            rw (n1, n2, n3, y) (omega (arith, l), omega (arith, l))
        | inr n4 ↦ rw (n1, n2, n3, n4) (later_turn-Advances c s out)
      ]
    ]
  ]
]

-- Fuel for each byte that is left and one more is enough.
loop_ends :
    (fuel : ℕ) (s out : List ℕ)
    → length s < fuel
    → (r : List ℕ) × (loop fuel s out ≡ some r) × (length r ≤ length s + length out)
unfolding loop Advances
loop_ends zero s out h = ground arith
loop_ends (suc fuel) [] out h = (out, refl, omega arith)
loop_ends (suc fuel) (c ∷ s) out h =
    let t = take_turn c s out in
    let a = take_turn-Advances c s out in
    let (r, e, l) = loop_ends fuel t.0 t.1 (omega (arith, a.0, h)) in (r, e, omega (arith, a.1, l))

-- What the loop is given fuel for.
abbrev pub Shortens : List ℕ → Type 0
Shortens path = (r : List ℕ) × (remove_dot_segments path ≡ some r) × (length r ≤ length path)

-- For every path the loop that removes dot segments ends within the fuel that it is given: there is a result, and
-- it is no longer than the path.
pub remove_dot_segments-Shortens : (path : List ℕ) → Shortens path
unfolding remove_dot_segments
remove_dot_segments-Shortens path = elim (Bool-cases (has_dot path)) [
  | inl dotted ↦
      let (r, e, l) = loop_ends (suc (length path)) path [] (omega arith) in
      (push r [], rw (dotted, e) refl, omega (arith, l, length-push r []))
  | inr plain ↦ (path, rw plain refl, omega arith)
]
