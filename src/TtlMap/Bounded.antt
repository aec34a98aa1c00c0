-- ===== src/TtlMap/Bounded.antt =====
-- core/utils/ttlmap.py: `touch` and `contains`.
use aismixer.Prelude.{
  ℕ, ◌+◌, ◌≤◌, ◌<◌, Bool, true, false, ◌||◌, none, some, List, [], ◌∷◌, ◌++◌, ◌≡◌, refl, ◌∙◌, arith,
  ltb, leb, nat_beq_iff, Eq, ==-self, if◌then◌else◌, length, member, member-append, Bool-cases,
  Option-cases, inl, inr,
}
use aismixer.Prelude.Dict.{
  Dict, lookup, insert, remove, Distinct, lookup-insert, lookup-remove, Distinct-insert,
  Distinct-remove, length-remove,
}
use aismixer.TtlMap.{
  TtlMap, Swept, evicting, sweep, is_evictable, evict_loop, evict_oldest, maybe_sweep,
  evict_key_if_expired, touch, contains_key,
}
use aismixer.TtlMap.Loops.{queued, Queued, Queued-pop, sweep_loop-SweepKeeps}

module _ {K : Type 0} ⦃e : Eq K⦄ where
  -- The keys evicted on the way from `d` to `d'` are exactly those that went.
  abbrev pub Reports : Dict K ℕ → List K → Dict K ℕ → Type 0
  Reports d evicted d' = (k : K) → lookup k d' ≡ (if member k evicted then none else lookup k d)

  record EvictKeeps (target : ℕ) (d : Dict K ℕ) (w : Swept K) : Type 0 where
    distinct : Distinct w.table
    queued_left : Queued w.queue w.table
    bounded : length w.table ≤ target
    reports : Reports d w.evicted w.table

  EvictKeeps-evicting :
      (target : ℕ) (key : K) (d : Dict K ℕ) (w : Swept K)
      → Distinct d
      → EvictKeeps target (remove key d) w
      → EvictKeeps target d (evicting key w)
  EvictKeeps-evicting target key d w u r = record {
    distinct = r.distinct;
    queued_left = r.queued_left;
    bounded = r.bounded;
    reports = λ k. ground (arith, r.reports k, lookup-remove key k d u);
  }

  Queued-nil : (d : Dict K ℕ) → Queued [] d → length d ≡ 0
  unfolding lookup
  Queued-nil [] h = refl
  Queued-nil ((k, x) ∷ d) h = absurd (ground (arith, h k x, ==-self k))

  evict_loop-EvictKeeps :
      (now target : ℕ) (q : List (ℕ × K)) (d : Dict K ℕ)
      → Distinct d
      → Queued q d
      → EvictKeeps target d (evict_loop true target now q d)
  unfolding evict_loop
  evict_loop-EvictKeeps now target [] d u h = record {
    distinct = u;
    queued_left = h;
    bounded = omega (arith, Queued-nil d h);
    reports = λ k. refl;
  }
  evict_loop-EvictKeeps now target ((exp, key) ∷ q) d u h =
      elim (Bool-cases (ltb target (length d))) [
        | inr small ↦
            rw small (record {
              distinct = u;
              queued_left = h;
              bounded = ground arith;
              reports = λ k. refl;
            })
        | inl large ↦ elim (Bool-cases (is_evictable true now (lookup key d))) [
          | inl there ↦
              rw (large, there)
                (EvictKeeps-evicting target key d (evict_loop true target now q (remove key d)) u (
                  evict_loop-EvictKeeps now target q (remove key d) (Distinct-remove key d u)
                    (Queued-pop exp key q d u h)))
          | inr gone ↦
              rw (large, gone)
                (evict_loop-EvictKeeps now target q d u
                  (λ k x p. ground (arith, h k x p, e.beq_iff key k)))
        ]
      ]

  pub record IsValid (m : TtlMap K) : Type 0 where
    pub distinct : Distinct m.d
    pub queued_live : Queued m.q m.d
    pub bounded : length m.d ≤ m.max_entries

  queued-append :
      (x : ℕ) (k : K) (q r : List (ℕ × K)) → queued x k (q ++ r) ≡ (queued x k q || queued x k r)
  queued-append x k [] r = refl
  queued-append x k (y ∷ q) r = ground (arith, queued-append x k q r)

  Queued-touch :
      (key : K) (exp : ℕ) (q : List (ℕ × K)) (d : Dict K ℕ)
      → Queued q d
      → Queued (q ++ (exp, key) ∷ []) (insert key exp d)
  Queued-touch key exp q d h k x p = ground (
    arith,
    queued-append x k q ((exp, key) ∷ []),
    lookup-insert key k exp d,
    h k x,
    nat_beq_iff exp x,
  )

  -- `_maybe_sweep`, whether it sweeps or not
  record MaybeSwept (now : ℕ) (m : TtlMap K) (evicted : List K) (s : TtlMap K) : Type 0 where
    distinct : Distinct s.d
    queued_live : Queued s.q s.d
    live : (k : K) (x : ℕ) → lookup k m.d ≡ some x → now < x → lookup k s.d ≡ some x
    reports : Reports m.d evicted s.d
    shorter : length s.d ≤ length m.d
    max_entries : s.max_entries ≡ m.max_entries

  maybe_sweep-MaybeSwept :
      (now : ℕ) (m : TtlMap K)
      → Distinct m.d
      → Queued m.q m.d
      → MaybeSwept now m (maybe_sweep now m).0 (maybe_sweep now m).1
  unfolding maybe_sweep sweep
  maybe_sweep-MaybeSwept now m u h =
      let r = sweep_loop-SweepKeeps now m.q m.d u h in
      elim (Bool-cases
        (leb m.ops_per_sweep (m.ops + 1) || leb (m.last_sweep_ns + m.sweep_every_ns) now)) [
          | inl sweeps ↦ rw sweeps (record {
            distinct = r.distinct;
            queued_live = r.queued_left;
            live = r.live;
            reports = r.reported;
            shorter = r.shorter;
            max_entries = refl;
          })
          | inr waits ↦ rw waits (record {
            distinct = u;
            queued_live = h;
            live = λ k x p lt. p;
            reports = λ k. refl;
            shorter = omega arith;
            max_entries = refl;
          })
        ]

  -- the map after `touch`, and the keys reported to `on_evict`
  pub record Touched (key : K) (now : ℕ) (m : TtlMap K) (evicted : List K) (s : TtlMap K)
      : Type 0 where
    pub valid : IsValid s
    pub reports : Reports (insert key (now + m.ttl_ns) m.d) evicted s.d
    pub max_entries : s.max_entries ≡ m.max_entries

  -- From a valid map (one entry for each key, a queue with the current record of every key, at most
  -- `max_entries` keys), `touch` leaves a valid map with the same limit, and its table is the old one
  -- with the key's new expiry, less exactly the keys that were reported to `on_evict`.
  pub touch-Touched :
      (key : K) (now : ℕ) (m : TtlMap K)
      → IsValid m
      → Touched key now m (touch key now m).0 (touch key now m).1
  unfolding touch evict_oldest
  touch-Touched key now m v =
      let exp = now + m.ttl_ns in
      let t : TtlMap K = record m { d = insert key exp m.d; q = m.q ++ (exp, key) ∷ [] } in
      let r =
        maybe_sweep-MaybeSwept now t (Distinct-insert key exp m.d v.distinct)
          (Queued-touch key exp m.q m.d v.queued_live) in
      let s = (maybe_sweep now t).1 in
      elim (Bool-cases (ltb s.max_entries (length s.d))) [
        | inl large ↦
            let w = evict_loop-EvictKeeps now s.max_entries s.q s.d r.distinct r.queued_live in
            rw large (record {
              valid = record {
                distinct = w.distinct;
                queued_live = w.queued_left;
                bounded = w.bounded;
              };
              reports = λ k. ground (
                arith,
                r.reports k,
                w.reports k,
                member-append k (maybe_sweep now t).0
                    (evict_loop true s.max_entries now s.q s.d).evicted,
              );
              max_entries = r.max_entries;
            })
        | inr small ↦ rw small (record {
          valid = record {
            distinct = r.distinct;
            queued_live = r.queued_live;
            bounded = ground arith;
          };
          reports = r.reports;
          max_entries = r.max_entries;
        })
      ]

  -- the answer of `contains`, the map after it, and the keys reported to `on_evict`
  pub record Looked (key : K) (now : ℕ) (m : TtlMap K) (answer : Bool) (evicted : List K)
      (s : TtlMap K) : Type 0 where
    pub valid : IsValid s
    pub decides : answer ≡ elim (lookup key m.d) [ none ↦ false | some exp ↦ ltb now exp ]
    pub live : (k : K) (x : ℕ) → lookup k m.d ≡ some x → now < x → lookup k s.d ≡ some x
    pub reports : Reports m.d evicted s.d

  evict_expired_key :
      (key : K) (now x : ℕ) (m : TtlMap K)
      → IsValid m
      → lookup key m.d ≡ some x
      → leb x now ≡ true
      → Looked key now m false (evict_key_if_expired key now m).0 (evict_key_if_expired key now m).1
  unfolding evict_key_if_expired
  evict_expired_key key now x m v at due =
      rw (at, evict_key_if_expired, due)
        (record {
          valid = record {
            distinct = Distinct-remove key m.d v.distinct;
            queued_live =
                λ k y p. v.queued_live k y (ground (arith, lookup-remove key k m.d v.distinct));
            bounded = ground (arith, length-remove key m.d, v.bounded);
          };
          decides = ground arith;
          live = λ k y p lt. ground (arith, lookup-remove key k m.d v.distinct, e.beq_iff key k);
          reports = λ k. ground (arith, lookup-remove key k m.d v.distinct);
        })

  Looked-sweep :
      (key : K) (now : ℕ) (m : TtlMap K) (answer : Bool)
      → IsValid m
      → answer ≡ elim (lookup key m.d) [ none ↦ false | some exp ↦ ltb now exp ]
      → Looked key now m answer (maybe_sweep now m).0 (maybe_sweep now m).1
  Looked-sweep key now m answer v decides =
      let r = maybe_sweep-MaybeSwept now m v.distinct v.queued_live in
      record {
        valid = record {
          distinct = r.distinct;
          queued_live = r.queued_live;
          bounded = omega (arith, r.shorter, r.max_entries, v.bounded);
        };
        decides = decides;
        live = r.live;
        reports = r.reports;
      }

  -- From a valid map, `contains` answers whether the key has an expiry later than `now`; it leaves a
  -- valid map that keeps every entry with a later expiry, and the keys that go are exactly those
  -- that were reported to `on_evict`.
  pub contains_key-Looked :
      (key : K) (now : ℕ) (m : TtlMap K)
      → IsValid m
      → Looked key now m
          (contains_key key now m).0
          (contains_key key now m).1
          (contains_key key now m).2
  unfolding contains_key
  contains_key-Looked key now m v = elim (Option-cases (lookup key m.d)) [
    | inl absent ↦ rw (absent, contains_key) (Looked-sweep key now m false v (ground arith))
    | inr (x, at) ↦ elim (Bool-cases (leb x now)) [
      | inl due ↦ rw (at, contains_key, due) (evict_expired_key key now x m v at due)
      | inr later ↦ rw (at, contains_key, later) (Looked-sweep key now m true v (ground arith))
    ]
  ]

  -- In a valid map, a key that a touch did not itself evict is found by the next `contains`, at any
  -- time, if and only if that is before its time to live is over.
  pub contains_key-touch :
      (key : K) (now later : ℕ) (m : TtlMap K)
      → IsValid m
      → member key (touch key now m).0 ≡ false
      → (contains_key key later (touch key now m).1).0 ≡ ltb later (now + m.ttl_ns)
  contains_key-touch key now later m v kept =
      let t = touch-Touched key now m v in
      let c = contains_key-Looked key later (touch key now m).1 t.valid in
      c.decides
      ∙ (rw (t.reports key, kept, lookup-insert key key (now + m.ttl_ns) m.d, ==-self key) refl)
