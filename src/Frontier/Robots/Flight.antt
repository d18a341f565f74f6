-- ===== src/Frontier/Robots/Flight.antt =====
-- The calls of `entryFor`, in any order of their steps: one fetch at a time for an origin, and no call that
-- waits for nothing.
use mathlib.Core.Path.{subst}
use mathlib.Core.Option.{some-injective}
use rabbot_seo.Base.{
  ap, eq_refl, ℕ, ◌≡◌, refl, sym, ◌∙◌, String, Bool, true, false, ◌||◌, Option, none, some, ◌==◌,
  str_eq, eq_iff, arith, Bool-cases, inl, inr,
}
use rabbot_seo.Frontier.Robots.{
  RobotsEntry, RobotsCache, Stage, looking, waiting, fetching, stored, returned, cancelled, World,
  put_at, put_key, origin, store, Url,
}

module _ {G : Type 0} where
  abbrev pub is_fetching : Stage G → Bool
  is_fetching (fetching started) = true
  is_fetching _ = false

  -- The call has a marker whose channel it will close.
  abbrev pub is_busy : Stage G → Bool
  is_busy (fetching started) = true
  is_busy (stored e) = true
  is_busy _ = false

  abbrev pub is_done : Stage G → Bool
  is_done (returned e) = true
  is_done cancelled = true
  is_done _ = false

  -- A call that waits is not forgotten.
  abbrev pub is_awaited : World G → Stage G → Bool
  is_awaited w (waiting leader) = w.done leader || is_busy (w.stage leader)
  is_awaited w _ = true

pub eq_of : (m n : ℕ) → (m == n) ≡ true → m ≡ n
eq_of m n h = ground arith

pub eq_self : (n : ℕ) → (n == n) ≡ true
eq_self n = ground arith

module _ {D G : Type 0} (rc : RobotsCache D G) (url_of : ℕ → Url) where
  pub record IsSound (w : World G) : Type 0 where
    pub led :
        (o : String) (t : ℕ)
        → w.in_flight o ≡ some t
        → (is_fetching (w.stage t) ≡ true) × (origin rc url_of t ≡ o)
    pub marked :
        (t : ℕ) → is_fetching (w.stage t) ≡ true → w.in_flight (origin rc url_of t) ≡ some t
    pub awaited : (t : ℕ) → is_awaited w (w.stage t) ≡ true

  elsewhere :
      (t t' : ℕ) (w : World G)
      → is_fetching (w.stage t) ≡ false
      → is_fetching (w.stage t') ≡ true
      → (t' == t) ≡ false
  elsewhere t t' w h f = elim (Bool-cases (t' == t)) [
    | inl same ↦ let f' = ap (λ n. is_fetching (w.stage n)) (sym (eq_of t' t same)) ∙ f in cc
    | inr other ↦ other
  ]

  -- Call `t` moves to stage `s`, and the maps change.
  abbrev pub moved :
      ℕ
      → Stage G
      → World G
      → (String → Option (RobotsEntry G))
      → (String → Option ℕ)
      → (ℕ → Bool)
      → World G
  moved t s w hosts f d = record w {
    hosts = hosts;
    in_flight = f;
    done = d;
    stage = put_at t s w.stage;
  }

  module _ (t : ℕ) (s : Stage G) (w : World G) (hosts : String → Option (RobotsEntry G))
      (f : String → Option ℕ) (d : ℕ → Bool)
      (keeps : (w.done t || is_busy (w.stage t)) ≡ true → (d t || is_busy s) ≡ true)
      (same_done : (n : ℕ) → (n == t) ≡ false → d n ≡ w.done n) where
    still_awaited :
        (x : Stage G) → is_awaited w x ≡ true → is_awaited (moved t s w hosts f d) x ≡ true
    still_awaited (waiting l) h = elim (Bool-cases (l == t)) [
      | inl same ↦
          let e = eq_of l t same in
          rw same (
            ap (λ n. d n || is_busy s) e
            ∙ keeps (ap (λ n. w.done n || is_busy (w.stage n)) (sym e) ∙ h))
      | inr other ↦ rw (other, same_done l other) h
    ]
    still_awaited looking h = refl
    still_awaited (fetching started) h = refl
    still_awaited (stored e) h = refl
    still_awaited (returned e) h = refl
    still_awaited cancelled h = refl

    all_awaited :
        is_awaited w s ≡ true
        → IsSound w
        → (n : ℕ) → is_awaited (moved t s w hosts f d) (put_at t s w.stage n) ≡ true
    all_awaited waits v n = elim (Bool-cases (n == t)) [
      | inl same ↦ rw same (still_awaited s waits)
      | inr other ↦ rw other (still_awaited (w.stage n) (v.awaited n))
    ]

  pub not_fetching : (s : Stage G) → is_busy s ≡ false → is_fetching s ≡ false
  not_fetching (fetching started) h = h
  not_fetching looking h = refl
  not_fetching (waiting l) h = refl
  not_fetching (stored e) h = refl
  not_fetching (returned e) h = refl
  not_fetching cancelled h = refl

  fetches_elsewhere :
      (t n : ℕ) (s : Stage G) (w : World G)
      → is_fetching s ≡ false
      → is_fetching (put_at t s w.stage n) ≡ true
      → ((n == t) ≡ false) × (is_fetching (w.stage n) ≡ true)
  fetches_elsewhere t n s w h f = elim (Bool-cases (n == t)) [
    | inl same ↦ let f' = rw same at f in cc
    | inr other ↦ (other, rw other at f)
  ]

  -- A call that does not fetch moves to a stage where it does not, and its marker is closed if it had one.
  pub quiet-IsSound :
      (t : ℕ) (s : Stage G) (w : World G) (d : ℕ → Bool)
      → is_fetching (w.stage t) ≡ false
      → is_fetching s ≡ false
      → is_awaited w s ≡ true
      → ((w.done t || is_busy (w.stage t)) ≡ true → (d t || is_busy s) ≡ true)
      → ((n : ℕ) → (n == t) ≡ false → d n ≡ w.done n)
      → IsSound w
      → IsSound (moved t s w w.hosts w.in_flight d)
  quiet-IsSound t s w d before after waits keeps same_done v = record {
    led = λ o n h. let l = v.led o n h in rw (elsewhere t n w before l.0) l;
    marked = λ n h. v.marked n (fetches_elsewhere t n s w after h).1;
    awaited = all_awaited t s w w.hosts w.in_flight d keeps same_done waits v;
  }

  pub lead-IsSound :
      (t : ℕ) (w : World G)
      → is_fetching (w.stage t) ≡ false
      → w.in_flight (origin rc url_of t) ≡ none
      → IsSound w
      → IsSound (
          moved t
            (fetching w.now)
            w
            w.hosts
            (put_key (origin rc url_of t) (some t) w.in_flight)
            w.done)
  lead-IsSound t w before free v =
      let here = origin rc url_of t in
      let f = put_key here (some t) w.in_flight in
      record {
        led = λ o n h. elim (Bool-cases (str_eq o here)) [
          | inl same ↦
              let e = some-injective t n (rw same at h) in
              subst
                (λ k.
                  (is_fetching (put_at t (fetching w.now) w.stage k) ≡ true)
                  × (origin rc url_of k ≡ o))
                e (rw (eq_self t) refl, sym ((eq_iff o here).0 same))
          | inr other ↦ let l = v.led o n (rw other at h) in rw (elsewhere t n w before l.0) l
        ];
        marked = λ n h. elim (Bool-cases (n == t)) [
          | inl same ↦
              subst (λ k. put_key here (some t) w.in_flight (origin rc url_of k) ≡ some k)
                (sym (eq_of n t same)) (rw (eq_refl here) refl)
          | inr other ↦
              let m = v.marked n (rw other at h) in
              elim (Bool-cases (str_eq (origin rc url_of n) here)) [
                | inl clash ↦
                    let m' = ap w.in_flight ((eq_iff (origin rc url_of n) here).0 clash) in cc
                | inr apart ↦ rw apart m
              ]
        ];
        awaited =
            all_awaited t (fetching w.now) w w.hosts f w.done (λ h. ground arith) (λ n h. refl) refl
              v;
      }

  pub store-IsSound :
      (t : ℕ) (e : RobotsEntry G) (w : World G)
      → is_fetching (w.stage t) ≡ true
      → IsSound w
      → IsSound (store rc url_of t e w)
  unfolding store
  store-IsSound t e w before v =
      let here = origin rc url_of t in
      let mine = v.marked t before in
      let f = put_key here none w.in_flight in
      record {
        led = λ o n h. elim (Bool-cases (str_eq o here)) [
          | inl same ↦ let h' = rw same at h in cc
          | inr other ↦
              let l = v.led o n (rw other at h) in
              elim (Bool-cases (n == t)) [
                | inl same ↦
                    let e1 = ap (origin rc url_of) (eq_of n t same) in
                    let e2 = (eq_iff o here).1 (sym l.1 ∙ e1) in cc
                | inr elsewhere ↦ rw elsewhere l
              ]
        ];
        marked = λ n h.
            let p = fetches_elsewhere t n (stored e) w refl h in
            let m = v.marked n p.1 in
            elim (Bool-cases (str_eq (origin rc url_of n) here)) [
              | inl clash ↦
                  let m' = ap w.in_flight ((eq_iff (origin rc url_of n) here).0 clash) in
                  let e1 = some-injective n t (sym m ∙ m' ∙ mine) in let e2 = p.0 in ground arith
              | inr apart ↦ rw apart m
            ];
        awaited =
            all_awaited t (stored e) w (put_key here (some e) w.hosts) f w.done (λ h. ground arith)
              (λ n h. refl) refl v;
      }
