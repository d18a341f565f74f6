-- ===== src/Discovery/Rows.antt =====
-- The rows of an inventory that grew from those before.
use rabbot_seo.Base.{
  ℕ, ◌+◌, ◌≤◌, ◌<◌, ◌≡◌, refl, String, false, ◌||◌, List, [], ◌∷◌, ◌++◌, leb, length, if◌then◌else◌,
  str_eq, eq_iff, arith,
}
use rabbot_seo.Discovery.{Row, Admission, upsert_row, has_url}

module _ {P : Type 0} where
  pub upsert_row_fresh :
      (r : Row P) (rows : List (Row P))
      → has_url r.url rows ≡ false
      → upsert_row r rows ≡ rows ++ r ∷ []
  unfolding upsert_row has_url
  upsert_row_fresh r [] h = refl
  upsert_row_fresh r (x ∷ xs) h = ground (arith, upsert_row_fresh r xs)

  -- No two rows have one URL.
  abbrev pub UniqueUrls : List (Row P) → Type 0
  UniqueUrls [] = Unit
  UniqueUrls (x ∷ xs) = (has_url x.url xs ≡ false) × UniqueUrls xs

  has_url-snoc :
      (u : String) (r : Row P) (rows : List (Row P))
      → has_url u (rows ++ r ∷ []) ≡ (has_url u rows || str_eq r.url u)
  unfolding has_url
  has_url-snoc u r [] = ground arith
  has_url-snoc u r (x ∷ xs) = ground (arith, has_url-snoc u r xs)

  pub UniqueUrls-snoc :
      (r : Row P) (rows : List (Row P))
      → UniqueUrls rows
      → has_url r.url rows ≡ false
      → UniqueUrls (rows ++ r ∷ [])
  unfolding has_url
  UniqueUrls-snoc r [] v h = (refl, tt)
  UniqueUrls-snoc r (x ∷ xs) v h = (
    ground (arith, has_url-snoc x.url r xs, eq_iff r.url x.url, eq_iff x.url r.url),
    UniqueUrls-snoc r xs v.1 (ground arith),
  )

-- The larger of the two.
abbrev pub ceiling : ℕ → ℕ → ℕ
ceiling max n = if leb max n then n else max

-- The rows of an inventory that grew, from those before: new ones behind them, as many as were counted,
-- and never so many that the cap is passed.
pub record Growth {P : Type 0} (max count added : ℕ) (rows rows' : List (Row P)) (a : Admission)
    : Type 0 where
  pub extra : List (Row P)
  pub grown : rows' ≡ rows ++ extra
  pub counted : a.added ≡ added + length extra
  pub capped : 0 < max → count + a.added ≤ ceiling max (count + added)
  pub unique : UniqueUrls rows → UniqueUrls rows'
