-- ===== src/Fetcher/Trip/Credentials.antt =====
-- Where the credentials of a site go on a trip, and how long it is.
use rabbot_seo.Base.{
  ℕ, zero, suc, ◌≤◌, ◌≡◌, refl, ap, ◌∙◌, String, Bool, true, false, ◌&&◌, ◌||◌, ◌⊎◌, List, [], ◌∷◌,
  length, if◌then◌else◌, str_eq, eq_iff, contains_string, arith, Bool-cases, inl, inr,
}
use rabbot_seo.Fetcher.Classify.{Headers}
use rabbot_seo.Fetcher.Ssrf.{Url, redirect_allowed}
use rabbot_seo.Fetcher.Trip.{
  Request, Reply, Hop, Net, Options, Ending, capped, failed, Step, stop, redirects, Trip, del,
  del_all, same_host, copied, next_hop, outcome, is_refused, follow, trip, first_headers,
  credential_header_keys, starts, ends, max_redirects,
}

abbrev pub has_header : String → Headers → Bool
has_header k [] = false
has_header k (h ∷ hs) = str_eq h.0 k || has_header k hs

has_header-del : (k : String) (hs : Headers) → has_header k (del k hs) ≡ false
has_header-del k [] = refl
has_header-del k (h ∷ hs) = ground (arith, has_header-del k hs)

stays_away :
    (k j : String) (hs : Headers) → has_header k hs ≡ false → has_header k (del j hs) ≡ false
stays_away k j [] h = refl
stays_away k j (x ∷ hs) h = ground (arith, stays_away k j hs)

has_header-del_all :
    (k : String) (ks : List String) (hs : Headers)
    → contains_string ks k ≡ true
    → has_header k (del_all ks hs) ≡ false
unfolding contains_string
has_header-del_all k [] hs h = ground arith
has_header-del_all k (j ∷ ks) hs h = elim (Bool-cases (str_eq j k)) [
  | inl same ↦
      ap (λ x. has_header k (del x (del_all ks hs))) ((eq_iff j k).0 same)
      ∙ has_header-del k (del_all ks hs)
  | inr other ↦ stays_away k j (del_all ks hs) (has_header-del_all k ks hs (rw other at h))
]

-- What holds of each request and the one before it.
abbrev pub Steps : (Hop → Hop → Type 0) → List Hop → Type 0
Steps P [] = Unit
Steps P (h ∷ []) = Unit
Steps P (h ∷ h' ∷ hs) = P h h' × Steps P (h' ∷ hs)

Step-cases :
    (s : Step) → ((e : Ending) × (s ≡ stop e)) ⊎ ((r : Reply) × ((u : Url) × (s ≡ redirects r u)))
Step-cases (stop e) = inl (e, refl)
Step-cases (redirects r u) = inr (r, (u, refl))

module _ (net : Net) (options : Options) where
  -- A request goes to a destination that is allowed, and it has the header exactly if the client copied it and
  -- the request before went to the same host.
  pub record IsGuarded (k : String) (initial : Headers) (p n : Hop) : Type 0 where
    pub destination : (options.allow_private || redirect_allowed n.url) ≡ true
    pub credential : has_header k n.headers ≡ (
        same_host net options p.url n.url && has_header k (copied net options initial p.url n.url))

  module _ (k : String) (credentials : List String) (initial : Headers)
      (secret : contains_string credentials k ≡ true) where
    next-IsGuarded :
        (p : Hop) (u : Url)
        → is_refused net options u ≡ false
        → IsGuarded k initial p (next_hop net options credentials initial p.url u)
    unfolding next_hop
    next-IsGuarded p u h = record {
      destination = ground arith;
      credential = elim (Bool-cases (same_host net options p.url u)) [
        | inl same ↦ rw same refl
        | inr other ↦
            rw other (has_header-del_all k credentials (copied net options initial p.url u) secret)
      ];
    }

    record Follows (left : ℕ) (hop : Hop) (t : Trip) : Type 0 where
      tail : List Hop
      first : t.hops ≡ hop ∷ tail
      guarded : Steps (IsGuarded k initial) (hop ∷ tail)
      short : length tail ≤ left
      chained : length t.chain ≤ suc left

    ends_here :
        (left : ℕ) (hop : Hop) (chain : List String) (e : Ending)
        → length chain ≤ suc left
        → Follows left hop (ends net options hop chain e)
    ends_here left hop chain e h = record {
      tail = [];
      first = refl;
      guarded = tt;
      short = omega arith;
      chained = h;
    }

    refused_here :
        (left : ℕ) (hop : Hop) (u : Url) (rest : Trip)
        → (is_refused net options u ≡ false → Follows (suc left) hop rest)
        → Follows
            (suc left)
            hop
            (if is_refused net options u then ends net options hop (u.text ∷ []) failed else rest)
    refused_here left hop u rest h = elim (Bool-cases (is_refused net options u)) [
      | inl refused ↦ rw refused (ends_here (suc left) hop (u.text ∷ []) failed (omega arith))
      | inr lawful ↦ rw lawful (h lawful)
    ]

    step_to :
        (left : ℕ) (p : Hop) (u : Url) (t : Trip)
        → is_refused net options u ≡ false
        → Follows left (next_hop net options credentials initial p.url u) t
        → Follows (suc left) p (starts net options p u.text t)
    step_to left p u t lawful f =
        let n = next_hop net options credentials initial p.url u in
        record {
          tail = n ∷ f.tail;
          first = ap (λ hs. p ∷ hs) f.first;
          guarded = (next-IsGuarded p u lawful, f.guarded);
          short = omega (arith, f.short);
          chained = omega (arith, f.chained);
        }

    follow-Follows :
        (left n : ℕ) (hop : Hop)
        → Follows left hop (follow net options credentials initial left n hop)
    unfolding follow
    follow-Follows zero n hop = elim (Step-cases (outcome net options n hop)) [
      | inl (e, stops) ↦ rw (follow, stops) (ends_here zero hop [] e (omega arith))
      | inr (r, (u, goes_on)) ↦
          rw (follow, goes_on) (ends_here zero hop (u.text ∷ []) (capped r hop.url) (omega arith))
    ]
    follow-Follows (suc left) n hop = elim (Step-cases (outcome net options n hop)) [
      | inl (e, stops) ↦ rw (follow, stops) (ends_here (suc left) hop [] e (omega arith))
      | inr (r, (u, goes_on)) ↦
          let next = next_hop net options credentials initial hop.url u in
          let rest = follow net options credentials initial left (suc n) next in
          rw (follow, goes_on)
            (refused_here left hop u (starts net options hop u.text rest)
              (λ lawful. step_to left hop u rest lawful (follow-Follows left (suc n) next)))
    ]

  -- A trip makes at most ten requests and notes at most ten redirects. Each request after the first goes to
  -- a destination that the guard allows, unless it is off, and it has a credential header exactly if the client
  -- copied it from the first request and the request before went to the same host.
  pub trip-IsGuarded :
      (req : Request) (u : Url) (k : String)
      → contains_string (credential_header_keys net options req.headers) k ≡ true
      → Steps (IsGuarded k (first_headers net options req u)) (trip net options req u).hops
        × (length (trip net options req u).hops ≤ max_redirects)
        × (length (trip net options req u).chain ≤ max_redirects)
  unfolding trip
  trip-IsGuarded req u k secret =
      let initial = first_headers net options req u in
      let credentials = credential_header_keys net options req.headers in
      let hop : Hop = record { url = u; headers = initial } in
      let f = follow-Follows k credentials initial secret 9 0 hop in
      (rw f.first f.guarded, rw f.first (omega (arith, f.short)), f.chained)
