-- ===== src/RobotsMeta/Tokens.antt =====
-- The noindex verdict: it looks past the case of letters, the choice of separators and a leading
-- crawler name.
use rabbot_seo.Base.{ℕ, ◌≡◌, refl, ap, true, List, [], ◌∷◌, ◌++◌, arith, Bool-cases, inl, inr}
use rabbot_seo.RobotsMeta.{
  Token, is_separator, lower, lower_token, split, close_token, fields, lower_tokens, parse,
  is_noindex,
}

lower_idempotent : (c : ℕ) → lower (lower c) ≡ lower c
unfolding lower
lower_idempotent c = ground arith

is_separator-lower : (c : ℕ) → is_separator (lower c) ≡ is_separator c
unfolding lower is_separator
is_separator-lower c = ground arith

close-lower :
    (t : Token) (ts : List Token)
    → close_token (lower_token t) (lower_tokens ts) ≡ lower_tokens (close_token t ts)
unfolding lower_token lower_tokens
close-lower [] ts = refl
close-lower (c ∷ cs) ts = refl

-- Splitting a value whose letters are lowered gives the lowered tokens.
split-lower_token :
    (cs : List ℕ) → split (lower_token cs) ≡ (lower_token (split cs).0, lower_tokens (split cs).1)
unfolding split lower_token lower_tokens
split-lower_token [] = refl
split-lower_token (c ∷ cs) =
    rw (is_separator-lower c, split-lower_token cs)
      (elim (Bool-cases (is_separator c)) [
        | inl sep ↦ rw sep (ap (λ ts. ([], ts)) (close-lower (split cs).0 (split cs).1))
        | inr other ↦ rw other refl
      ])

lower_token-idempotent : (t : Token) → lower_token (lower_token t) ≡ lower_token t
unfolding lower_token
lower_token-idempotent [] = refl
lower_token-idempotent (c ∷ cs) = rw (lower_idempotent c, lower_token-idempotent cs) refl

lower_tokens-idempotent : (ts : List Token) → lower_tokens (lower_tokens ts) ≡ lower_tokens ts
unfolding lower_tokens
lower_tokens-idempotent [] = refl
lower_tokens-idempotent (t ∷ ts) = rw (lower_token-idempotent t, lower_tokens-idempotent ts) refl

fields-lower_token : (cs : List ℕ) → fields (lower_token cs) ≡ lower_tokens (fields cs)
unfolding fields
fields-lower_token cs = rw (split-lower_token cs) (close-lower (split cs).0 (split cs).1)

-- The case of a value's letters is of no account.
pub is_noindex-lower_token : (cs : List ℕ) → is_noindex (lower_token cs) ≡ is_noindex cs
unfolding is_noindex parse
is_noindex-lower_token cs = rw (fields-lower_token cs, lower_tokens-idempotent (fields cs)) refl

close_token-append :
    (t : Token) (ts us : List Token) → close_token t (ts ++ us) ≡ close_token t ts ++ us
close_token-append [] ts us = refl
close_token-append (c ∷ cs) ts us = refl

split-separator :
    (xs ys : List ℕ) (s : ℕ)
    → is_separator s ≡ true
    → split (xs ++ s ∷ ys) ≡ ((split xs).0, (split xs).1 ++ fields ys)
unfolding split fields
split-separator [] ys s h = rw h refl
split-separator (c ∷ xs) ys s h =
    rw (split-separator xs ys s h) (elim (Bool-cases (is_separator c)) [
      | inl sep ↦
          rw sep (ap (λ ts. ([], ts)) (close_token-append (split xs).0 (split xs).1 (fields ys)))
      | inr other ↦ rw other refl
    ])

-- Whichever separator stands between two values, and however many: the tokens are those of the one
-- and then those of the other.
pub fields-separator :
    (xs ys : List ℕ) (s : ℕ)
    → is_separator s ≡ true
    → fields (xs ++ s ∷ ys) ≡ fields xs ++ fields ys
unfolding fields
fields-separator xs ys s h =
    rw (split-separator xs ys s h) (close_token-append (split xs).0 (split xs).1 (fields ys))
