-- ===== src/Frontier/Pacing/Polite.antt =====
-- A frontier sets no limiter below a Crawl-delay that it was told of, and keeps to its number of requests at once.
use mathlib.Core.Path.{subst}
use rabbot_seo.Base.{
  ap, ℕ, ◌≤◌, ◌≡◌, refl, String, Bool, true, false, not, ◌&&◌, ◌||◌, Option, none, some, List, [],
  ◌∷◌, ltb, leb, ◌==◌, length, length-keep-le, if◌then◌else◌, str_eq, eq_iff, arith, Bool-cases,
  inl, inr,
}
use rabbot_seo.Base.Int.{ℤ, pos_part}
use rabbot_seo.Frontier.Pacing.{
  Factor, Options, HostState, Frontier, Op, set_paused, set_min_interval, set_host_rate, report,
  acquire, release, new, fresh_state, state_for, put, effective_every, set_limit,
  apply_effective_limit, floored, clamped, rated, reported, acquired, released, step, run,
  min_per_host_rate,
}

abbrev pub larger : ℕ → ℕ → ℕ
larger m n = if ltb m n then n else m

-- The largest Crawl-delay that an operation asks for a host, from one that was asked before.
abbrev pub asks : String → Op → ℕ → ℕ
asks host (set_min_interval h d) n = if str_eq host h then larger n (pos_part d) else n
asks host (set_paused p) n = n
asks host (set_host_rate h d) n = n
asks host (report h latency had_error) n = n
asks host (acquire h k) n = n
asks host (release h k) n = n

abbrev pub asked : String → List Op → ℕ → ℕ
asked host [] n = n
asked host (op ∷ ops) n = asked host ops (asks host op n)

module _ {F : Type 0} (x : Factor F) (options : Options) where
  -- The spacing that the limiter is set to is at least the Crawl-delay, the base at least the sanity floor or the default, and no
  -- more requests hold a slot than may.
  pub record IsPolite (floor : ℕ) (hs : HostState F) : Type 0 where
    pub kept_floor : hs.robots_floor ≡ floor
    pub spaced : floor ≤ hs.spacing
    pub sane :
        (leb min_per_host_rate hs.base_every || (hs.base_every == options.per_host_rate)) ≡ true
    pub few : length hs.slots ≤ options.per_host_concurrency

  abbrev state_or : Option (HostState F) → HostState F
  state_or none = fresh_state x options
  state_or (some hs) = hs

  if_true : {b : Bool} (o o' : Option (HostState F)) → b ≡ true → (if b then o else o') ≡ o
  if_true o o' h = rw h refl

  if_false : {b : Bool} (o o' : Option (HostState F)) → b ≡ false → (if b then o else o') ≡ o'
  if_false o o' h = rw h refl

  fresh-IsPolite : IsPolite 0 (fresh_state x options)
  fresh-IsPolite = record {
    kept_floor = refl;
    spaced = omega arith;
    sane = ground arith;
    few = omega arith;
  }

  floor-effective : (hs : HostState F) → hs.robots_floor ≤ effective_every x options hs
  unfolding effective_every
  floor-effective hs = ground arith

  -- A state that keeps its floor and its slots, with a limit that was set anew.
  set_limit-IsPolite :
      (floor : ℕ) (hs : HostState F)
      → hs.robots_floor ≡ floor
      → (leb min_per_host_rate hs.base_every || (hs.base_every == options.per_host_rate)) ≡ true
      → length hs.slots ≤ options.per_host_concurrency
      → IsPolite floor (set_limit x options hs)
  set_limit-IsPolite floor hs h s l = record {
    kept_floor = h;
    spaced = omega (arith, h, floor-effective hs);
    sane = s;
    few = l;
  }

  apply-IsPolite :
      (floor : ℕ) (hs : HostState F)
      → hs.robots_floor ≡ floor
      → (leb min_per_host_rate hs.base_every || (hs.base_every == options.per_host_rate)) ≡ true
      → length hs.slots ≤ options.per_host_concurrency
      → IsPolite floor (apply_effective_limit x options hs)
  unfolding apply_effective_limit
  apply-IsPolite floor hs h s l =
      elim (Bool-cases (
        ltb 0 (x.spacing_of hs.spacing)
        && ltb (effective_every x options hs) (x.spacing_of hs.spacing))) [
          | inl lowered ↦ rw lowered (record {
            kept_floor = h;
            spaced = omega (arith, h, floor-effective hs);
            sane = s;
            few = l;
          })
          | inr other ↦ rw other (set_limit-IsPolite floor hs h s l)
        ]

  floored-IsPolite :
      (floor d : ℕ) (hs : HostState F)
      → IsPolite floor hs
      → IsPolite (larger floor d) (floored x options d hs)
  unfolding floored
  floored-IsPolite floor d hs v =
      set_limit-IsPolite (larger floor d)
        (record hs { robots_floor = if ltb hs.robots_floor d then d else hs.robots_floor })
        (rw v.kept_floor refl) v.sane v.few

  clamped_sane :
      (d : ℤ)
      → (leb min_per_host_rate (clamped x options d)
          || (clamped x options d == options.per_host_rate))
        ≡ true
  clamped_sane d = ground arith

  rated-IsPolite :
      (floor : ℕ) (d : ℤ) (hs : HostState F)
      → IsPolite floor hs
      → IsPolite floor (rated x options d hs)
  unfolding rated
  rated-IsPolite floor d hs v =
      apply-IsPolite floor (record hs { base_every = clamped x options d }) v.kept_floor
        (clamped_sane d) v.few

  reported-IsPolite :
      (floor latency : ℕ) (had_error : Bool) (hs : HostState F)
      → IsPolite floor hs
      → IsPolite floor (reported x options latency had_error hs)
  unfolding reported
  reported-IsPolite floor latency had_error hs v =
      set_limit-IsPolite floor _ v.kept_floor v.sane v.few

  acquired-IsPolite :
      (floor n : ℕ) (hs : HostState F)
      → IsPolite floor hs
      → IsPolite floor (acquired x options n hs)
  unfolding acquired
  acquired-IsPolite floor n hs v =
      elim (Bool-cases (ltb (length hs.slots) options.per_host_concurrency)) [
        | inl room ↦ rw room (record {
          kept_floor = v.kept_floor;
          spaced = v.spaced;
          sane = v.sane;
          few = ground arith;
        })
        | inr full ↦ rw full v
      ]

  released-IsPolite :
      (floor n : ℕ) (hs : HostState F)
      → IsPolite floor hs
      → IsPolite floor (released x options n hs)
  unfolding released
  released-IsPolite floor n hs v = record {
    kept_floor = v.kept_floor;
    spaced = v.spaced;
    sane = v.sane;
    few = omega (arith, v.few, length-keep-le (λ m. not (m == n)) hs.slots);
  }

  -- A host's state after the state of a host, which may be the same one, went through a change.
  put-IsPolite :
      (host h : String) (floor floor' : ℕ) (change : HostState F → HostState F) (f : Frontier F)
      → ((hs : HostState F) → IsPolite floor hs → IsPolite floor' (change hs))
      → IsPolite floor (state_for x options host f)
      → IsPolite
          (if str_eq host h then floor' else floor)
          (state_for x options host (put x options h (change (state_for x options h f)) f))
  put-IsPolite host h floor floor' change f keeps v = elim (Bool-cases (str_eq host h)) [
    | inl same ↦
        let at : state_for x options host f ≡ state_for x options h f =
          ap (λ u. state_for x options u f) ((eq_iff host h).0 same) in
        let found : state_for x options host (put x options h (change (state_for x options h f)) f)
            ≡ change (state_for x options h f) =
          ap state_or (if_true _ _ same) in
        rw (same, found) (keeps (state_for x options h f) (subst (λ hs. IsPolite floor hs) at v))
    | inr other ↦
        let found : state_for x options host (put x options h (change (state_for x options h f)) f)
            ≡ state_for x options host f =
          ap state_or (if_false _ _ other) in
        rw (other, found) v
  ]

  same_floor :
      (b : Bool) (floor : ℕ) (hs : HostState F)
      → IsPolite (if b then floor else floor) hs
      → IsPolite floor hs
  same_floor true floor hs v = v
  same_floor false floor hs v = v

  step-IsPolite :
      (host : String) (floor : ℕ) (op : Op) (f : Frontier F)
      → IsPolite floor (state_for x options host f)
      → IsPolite (asks host op floor) (state_for x options host (step x options op f))
  unfolding step
  step-IsPolite host floor (set_paused p) f v = v
  step-IsPolite host floor (set_min_interval h d) f v =
      put-IsPolite host h floor (larger floor (pos_part d)) (floored x options (pos_part d)) f
        (λ hs. floored-IsPolite floor (pos_part d) hs) v
  step-IsPolite host floor (set_host_rate h d) f v =
      same_floor (str_eq host h) floor _
        (put-IsPolite host h floor floor (rated x options d) f (λ hs. rated-IsPolite floor d hs) v)
  step-IsPolite host floor (report h latency had_error) f v = same_floor (str_eq host h) floor _ (
      put-IsPolite host h floor floor (reported x options latency had_error) f
        (λ hs. reported-IsPolite floor latency had_error hs) v)
  step-IsPolite host floor (acquire h n) f v = elim (Bool-cases f.paused) [
    | inl held ↦ rw held v
    | inr going ↦ rw going (
        same_floor (str_eq host h) floor _ (
          put-IsPolite host h floor floor (acquired x options n) f
            (λ hs. acquired-IsPolite floor n hs) v))
  ]
  step-IsPolite host floor (release h n) f v = same_floor (str_eq host h) floor _ (
      put-IsPolite host h floor floor (released x options n) f (λ hs. released-IsPolite floor n hs)
        v)

  run-IsPolite_from :
      (host : String) (floor : ℕ) (ops : List Op) (f : Frontier F)
      → IsPolite floor (state_for x options host f)
      → IsPolite (asked host ops floor) (state_for x options host (run x options ops f))
  unfolding run
  run-IsPolite_from host floor [] f v = v
  run-IsPolite_from host floor (op ∷ ops) f v =
      run-IsPolite_from host (asks host op floor) ops (step x options op f)
        (step-IsPolite host floor op f v)

  -- Whatever a new frontier is asked, and in whatever order: the spacing that a host's limiter is set to is at least
  -- the longest Crawl-delay that was set for the host, also after its rate was raised or it recovered; its base
  -- spacing is the default or at least 250 milliseconds; and no more requests hold a slot than may. (Two requests
  -- may still be closer than that spacing: a limiter that was put in place of another has a token to give at once.)
  pub run-IsPolite :
      (host : String) (ops : List Op)
      → IsPolite (asked host ops 0) (state_for x options host (run x options ops new))
  run-IsPolite host ops = run-IsPolite_from host 0 ops new fresh-IsPolite
