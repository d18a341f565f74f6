-- ===== src/Discovery/Growth.antt =====
-- An inventory grows by exactly the URLs that a loop reports, never past the cap, and no row that was
-- there is touched.
use mathlib.Core.Path.{subst}
use mathlib.Core.List.{append-nil, append_assoc}
use rabbot_seo.Base.{
  ℕ, suc, ◌+◌, ◌≡◌, refl, sym, ◌∙◌, ap, String, Bool, true, false, not, ◌||◌, Option, none, some,
  List, [], ◌∷◌, ◌++◌, leb, ◌==◌, length, map, length-append, if◌then◌else◌, arith, Bool-cases, inl,
  inr,
}
use rabbot_seo.Base.Result.{ok, Result-cases}
use rabbot_seo.Discovery.Sitemaps.{Web, collect, collect_and_seed, page}
use rabbot_seo.Discovery.{
  Row, World, Discoverer, Candidate, Admission, Error, attempt, upsert_row, has_url, get_url, admit,
  upsert, at_cap, admit_all, row_of, count_and_admit, admit_counted, enqueue_links, count_site_urls,
  link, Caps,
}
use rabbot_seo.Discovery.Rows.{upsert_row_fresh, UniqueUrls, UniqueUrls-snoc, ceiling, Growth}

module _ {P : Type 0} (d : Discoverer P) where
  admit-rows : (raw : String) (w : World P) → (admit d raw w).1.rows ≡ w.rows
  unfolding admit get_url attempt
  admit-rows raw w = ground arith

  admit_fresh :
      (raw : String) (w : World P)
      → (admit d raw w).0 ≡ ok true
      → has_url (d.canonical_url raw) w.rows ≡ false
  unfolding admit get_url attempt
  admit_fresh raw w h = ground arith

  upsert-rows :
      (c : Candidate P) (w : World P)
      → (upsert d c w).1.rows
        ≡ (if (upsert d c w).0 then upsert_row (row_of d c) w.rows else w.rows)
  unfolding upsert attempt
  upsert-rows c w = ground arith

  stays :
      (max count added : ℕ) (rows rows' : List (Row P)) (e : Option Error)
      → rows' ≡ rows
      → Growth max count added rows rows' (record { added = added; error = e })
  stays max count added rows rows' e h = record {
    extra = [];
    grown = h ∙ sym (append-nil rows);
    counted = omega arith;
    capped = λ p. ground arith;
    unique = λ v. rw h v;
  }

  Growth-from :
      (max count added : ℕ) (rows rows1 rows' : List (Row P)) (a : Admission)
      → rows1 ≡ rows
      → Growth max count added rows1 rows' a
      → Growth max count added rows rows' a
  Growth-from max count added rows rows1 rows' a h g =
      subst (λ x. Growth max count added x rows' a) h g

  Growth-one :
      (max count added : ℕ) (rows rows' : List (Row P)) (r : Row P) (a : Admission)
      → has_url r.url rows ≡ false
      → at_cap max (count + added) ≡ false
      → Growth max count (suc added) (rows ++ r ∷ []) rows' a
      → Growth max count added rows rows' a
  Growth-one max count added rows rows' r a fresh below g = record {
    extra = r ∷ g.extra;
    grown = g.grown ∙ append_assoc rows (r ∷ []) g.extra;
    counted = omega (arith, g.counted);
    capped = λ p. let c = g.capped p in ground arith;
    unique = λ v. g.unique (UniqueUrls-snoc r rows v fresh);
  }

  pub admit_all-Growth :
      (max count added : ℕ) (cs : List (Candidate P)) (w : World P)
      → Growth max count added w.rows
          (admit_all d max count added cs w).1.rows
          (admit_all d max count added cs w).0
  unfolding admit_all
  admit_all-Growth max count added [] w = stays max count added w.rows w.rows none refl
  admit_all-Growth max count added (c ∷ cs) w =
      let w1 = (admit d c.raw w).1 in
      let w2 = (upsert d c w1).1 in
      let rows1 = admit-rows c.raw w in
      elim (Bool-cases (at_cap max (count + added))) [
        | inl full ↦ rw full (stays max count added w.rows w.rows none refl)
        | inr below ↦ elim (Result-cases (admit d c.raw w).0) [
          | inr (e, failed) ↦
              rw (below, failed) (stays max count added w.rows w1.rows (some e) rows1)
          | inl (false, known) ↦
              rw (below, known)
                (Growth-from max count added w.rows w1.rows
                  (admit_all d max count added cs w1).1.rows (admit_all d max count added cs w1).0
                  rows1 (admit_all-Growth max count added cs w1))
          | inl (true, new) ↦
              let fresh : has_url (d.canonical_url c.raw) w1.rows ≡ false =
                rw rows1 (admit_fresh c.raw w new) in
              elim (Bool-cases (upsert d c w1).0) [
                | inr missed ↦
                    let same : w2.rows ≡ w.rows = upsert-rows c w1 ∙ rw missed rows1 in
                    rw (below, new, missed)
                      (Growth-from max count added w.rows w2.rows
                        (admit_all d max count added cs w2).1.rows
                        (admit_all d max count added cs w2).0 same
                        (admit_all-Growth max count added cs w2))
                | inl stored ↦
                    let longer : w2.rows ≡ w.rows ++ row_of d c ∷ [] =
                      upsert-rows c w1
                      ∙ rw stored (upsert_row_fresh (row_of d c) w1.rows fresh ∙ rw rows1 refl) in
                    rw (below, new, stored)
                      (Growth-one max count added w.rows
                        (admit_all d max count (suc added) cs w2).1.rows (row_of d c)
                        (admit_all d max count (suc added) cs w2).0 (admit_fresh c.raw w new) below
                        (Growth-from max count (suc added) (w.rows ++ row_of d c ∷ []) w2.rows
                          (admit_all d max count (suc added) cs w2).1.rows
                          (admit_all d max count (suc added) cs w2).0 longer
                          (admit_all-Growth max count (suc added) cs w2)))
              ]
        ]
      ]

  count-rows : (w : World P) → (count_site_urls w).1.rows ≡ w.rows
  unfolding count_site_urls attempt
  count-rows w = ground arith

  count_right : (w : World P) (n : ℕ) → (count_site_urls w).0 ≡ ok n → n ≡ length w.rows
  unfolding count_site_urls attempt
  count_right w n h = ground arith

  count_and_admit-Growth :
      (max : ℕ) (cs : List (Candidate P)) (w : World P)
      → Growth max
          (length w.rows)
          0
          w.rows
          (count_and_admit d max cs w).1.rows
          (count_and_admit d max cs w).0
  unfolding count_and_admit admit_counted
  count_and_admit-Growth max cs w =
      let w1 = (count_site_urls w).1 in
      elim (Result-cases (count_site_urls w).0) [
        | inr (e, failed) ↦
            rw failed (stays max (length w.rows) 0 w.rows w1.rows (some e) (count-rows w))
        | inl (n, counted) ↦
            rw (counted, ← count_right w n counted)
              (Growth-from max n 0 w.rows w1.rows (admit_all d max n 0 cs w1).1.rows
                (admit_all d max n 0 cs w1).0 (count-rows w) (admit_all-Growth max n 0 cs w1))
      ]

  -- A cap of 0 is none.
  abbrev pub is_within : ℕ → ℕ → ℕ → Bool
  is_within max before after = (max == 0) || leb after (ceiling max before)

  pub Account : ℕ → List (Row P) → List (Row P) → Admission → Type 0
  Account max rows rows' a =
      (extra : List (Row P)) × (rows' ≡ rows ++ extra)
      × (length extra ≡ a.added)
      × (is_within max (length rows) (length rows') ≡ true)
      × UniqueUrls rows'

  pub Growth-Account :
      (max : ℕ) (rows rows' : List (Row P)) (a : Admission)
      → UniqueUrls rows
      → Growth max (length rows) 0 rows rows' a
      → Account max rows rows' a
  unfolding Account
  Growth-Account max rows rows' a v g =
      let size : length rows' ≡ length rows + length g.extra =
        ap length g.grown ∙ length-append rows g.extra in
      let n = g.counted in
      (
        g.extra,
        g.grown,
        omega (arith, n),
        elim (Bool-cases (max == 0)) [
          | inl none_set ↦ rw none_set refl
          | inr set ↦ let c = g.capped (ground arith) in ground arith
        ],
        g.unique v,
      )

  -- Whatever calls of the database fail, and from an inventory with one row for each URL, `EnqueueLinks` reports
  -- exactly the URLs that it added; the rows that were there stay as they are, in front of the new ones; the
  -- inventory does not pass its cap, and grows not at all where it had reached it; and each URL still has one
  -- row.
  pub enqueue_links-Account :
      (caps : Caps) (depth : ℕ) (links : List String) (w : World P)
      → UniqueUrls w.rows
      → Account caps.max_pages w.rows
          (enqueue_links d caps depth links w).1.rows
          (enqueue_links d caps depth links w).0
  unfolding enqueue_links
  enqueue_links-Account caps depth links w v =
      elim (Bool-cases (not caps.follow_links || leb caps.max_depth depth)) [
        | inl off ↦ rw off (
            Growth-Account caps.max_pages w.rows w.rows (record { added = 0; error = none }) v
              (stays caps.max_pages (length w.rows) 0 w.rows w.rows none refl))
        | inr on ↦
            let cs = map (link d (suc depth)) links in
            rw on (
              Growth-Account caps.max_pages w.rows (count_and_admit d caps.max_pages cs w).1.rows
                (count_and_admit d caps.max_pages cs w).0 v
                (count_and_admit-Growth caps.max_pages cs w))
      ]

  -- Whatever calls of the database fail, and from an inventory with one row for each URL: `CollectAndSeed` reports
  -- exactly the URLs of the site's sitemaps that it added; the rows that were there stay as they are, in front
  -- of the new ones; the inventory does not pass its cap, and grows not at all where it had reached it; and each
  -- URL still has one row.
  pub collect_and_seed-Account :
      (web : Web P) (caps : Caps) (w : World P)
      → UniqueUrls w.rows
      → Account caps.max_pages w.rows
          (collect_and_seed d web caps w).1.1.rows
          (collect_and_seed d web caps w).1.0
  unfolding collect_and_seed
  collect_and_seed-Account web caps w v = elim (Bool-cases (not caps.sitemap)) [
    | inl off ↦ rw off (
        Growth-Account caps.max_pages w.rows w.rows (record { added = 0; error = none }) v
          (stays caps.max_pages (length w.rows) 0 w.rows w.rows none refl))
    | inr on ↦
        let cs = map (λ e. page e) (collect d.higher web caps.max_pages).entries in
        rw on (
          Growth-Account caps.max_pages w.rows (count_and_admit d caps.max_pages cs w).1.rows
            (count_and_admit d caps.max_pages cs w).0 v
            (count_and_admit-Growth caps.max_pages cs w))
  ]
