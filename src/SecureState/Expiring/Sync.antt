-- ===== src/SecureState/Expiring/Sync.antt =====
-- aismixer_secure.py: the order and the table of `_BoundedExpiringSet`.
use aismixer.Prelude.{
  ℕ, suc, ◌+◌, ◌-◌, ◌≤◌, ◌<◌, true, false, not, none, some, List, [], ◌∷◌, ◌++◌, ◌≡◌, refl, sym,
  ◌∙◌, ap, arith, ltb, leb, Eq, if◌then◌else◌, length, length-append, ok, pure, Bool-cases, inl,
  inr, leb→le,
}
use aismixer.Prelude.Dict.{
  Dict, lookup, contains, insert, insert_absent, lookup-insert_other, lookup-insert_self, remove,
  Distinct, Distinct-insert,
}
use aismixer.SecureState.Expiring.{
  ExpiringRecord, ExpiringSet, Admission, empty_set, size, is_live, cleanup_loop, cleanup_expired,
  evict_loop, evict_oldest_live, contains_key, fresh, store, accept, discard_all,
}

module _ {K : Type 0} ⦃e : Eq K⦄ where
  -- the table that an order of live records describes
  abbrev pub table_of : List (ExpiringRecord K) → Dict K (ExpiringRecord K)
  table_of [] = []
  table_of (r ∷ rs) = (r.key, r) ∷ table_of rs

  pub record IsSynced (s : ExpiringSet K) : Type 0 where
    pub synced : s.live_by_key ≡ table_of s.expiry_order
    pub distinct : Distinct s.live_by_key
    pub some_room : 1 ≤ s.max_entries
    pub within : size s ≤ s.max_entries

  pub empty_set-IsSynced :
      (ttl max_entries : ℕ) → 1 ≤ max_entries → IsSynced (empty_set ttl max_entries)
  empty_set-IsSynced ttl max_entries h = record {
    synced = refl;
    distinct = tt;
    some_room = h;
    within = omega (arith, h);
  }

  head_live :
      (r : ExpiringRecord K) (rs : List (ExpiringRecord K)) → is_live r (table_of (r ∷ rs)) ≡ true
  unfolding lookup
  head_live r rs = ground (arith, e.beq_iff r.key r.key)

  remove_head :
      (r : ExpiringRecord K) (rs : List (ExpiringRecord K))
      → remove r.key (table_of (r ∷ rs)) ≡ table_of rs
  unfolding remove
  remove_head r rs = ground (arith, e.beq_iff r.key r.key)

  -- the set that an order of live records describes
  abbrev ordered : List (ExpiringRecord K) → ExpiringSet K → ExpiringSet K
  ordered rs s = record s { live_by_key = table_of rs; expiry_order = rs }

  remove_first :
      (r : ExpiringRecord K) (rs : List (ExpiringRecord K)) (s : ExpiringSet K)
      → s.live_by_key ≡ table_of (r ∷ rs)
      → remove r.key s.live_by_key ≡ table_of rs
  remove_first r rs s c = ap (remove r.key) c ∙ remove_head r rs

  -- what a cleanup leaves of the order
  unfoldable pub unexpired : ℕ → List (ExpiringRecord K) → List (ExpiringRecord K)
  unexpired now [] = []
  unexpired now (r ∷ rs) =
      let rest = unexpired now rs in if ltb now r.expires_at then r ∷ rs else rest

  length-unexpired :
      (now : ℕ) (rs : List (ExpiringRecord K)) → length (unexpired now rs) ≤ length rs
  unfolding unexpired
  length-unexpired now [] = omega arith
  length-unexpired now (r ∷ rs) = ground (arith, length-unexpired now rs)

  length-table_of : (rs : List (ExpiringRecord K)) → length (table_of rs) ≡ length rs
  length-table_of [] = refl
  length-table_of (r ∷ rs) = ap suc (length-table_of rs)

  cleanup_loop_lem :
      (now : ℕ) (rs : List (ExpiringRecord K)) (n : ℕ) (s : ExpiringSet K)
      → s.live_by_key ≡ table_of rs
      → s.expiry_order ≡ rs
      → cleanup_loop now rs n s
        ≡ (n + (length rs - length (unexpired now rs)), ordered (unexpired now rs) s)
  unfolding cleanup_loop unexpired
  cleanup_loop_lem now [] n s c i = ground arith
  cleanup_loop_lem now (r ∷ rs) n s c i =
      let live : is_live r s.live_by_key ≡ true = ap (is_live r) c ∙ head_live r rs in
      elim (Bool-cases (ltb now r.expires_at)) [
        | inl later ↦ rw (live, later) (ground arith)
        | inr due ↦
            rw (live, due, remove_first r rs s c)
              (cleanup_loop_lem now rs (n + 1) (ordered rs s) refl refl
                ∙ ground (arith, length-unexpired now rs))
      ]

  lookup-unexpired-none :
      (now : ℕ) (k : K) (rs : List (ExpiringRecord K))
      → lookup k (table_of rs) ≡ none
      → lookup k (table_of (unexpired now rs)) ≡ none
  unfolding unexpired lookup
  lookup-unexpired-none now k [] h = refl
  lookup-unexpired-none now k (r ∷ rs) h = ground (arith, lookup-unexpired-none now k rs)

  lookup-unexpired_later :
      (now : ℕ) (k : K) (r : ExpiringRecord K) (rs : List (ExpiringRecord K))
      → lookup k (table_of rs) ≡ some r
      → now < r.expires_at
      → lookup k (table_of (unexpired now rs)) ≡ some r
  unfolding unexpired lookup
  lookup-unexpired_later now k r [] h later = absurd (ground arith)
  lookup-unexpired_later now k r (x ∷ rs) h later =
      ground (arith, lookup-unexpired_later now k r rs)

  Distinct-unexpired :
      (now : ℕ) (rs : List (ExpiringRecord K))
      → Distinct (table_of rs)
      → Distinct (table_of (unexpired now rs))
  unfolding unexpired
  Distinct-unexpired now [] h = tt
  Distinct-unexpired now (r ∷ rs) h = ground (arith, Distinct-unexpired now rs)

  -- What a cleanup does to a synced set.
  pub record Cleaned (now : ℕ) (s : ExpiringSet K) (n : ℕ) (t : ExpiringSet K) : Type 0 where
    pub synced : IsSynced t
    pub counts : size s ≡ size t + n
    pub later :
        (k : K) (r : ExpiringRecord K)
        → lookup k s.live_by_key ≡ some r
        → now < r.expires_at
        → lookup k t.live_by_key ≡ some r
    pub ttl : t.ttl ≡ s.ttl

  pub cleanup_expired-Cleaned :
      (now : ℕ) (s : ExpiringSet K)
      → IsSynced s
      → Cleaned now s (cleanup_expired now s).0 (cleanup_expired now s).1
  unfolding cleanup_expired
  cleanup_expired-Cleaned now s h =
      let rs = s.expiry_order in
      let shorter : length (table_of (unexpired now rs)) ≤ length s.live_by_key = ground (
        arith,
        h.synced,
        length-table_of (unexpired now rs),
        length-table_of rs,
        length-unexpired now rs,
      ) in
      rw (cleanup_loop_lem now rs 0 s h.synced refl) (record {
        synced = record {
          synced = refl;
          distinct = Distinct-unexpired now rs (rw h.synced at h.distinct);
          some_room = h.some_room;
          within = omega (arith, h.within, shorter);
        };
        counts = ground (
          arith,
          h.synced,
          length-table_of (unexpired now rs),
          length-table_of rs,
          length-unexpired now rs,
        );
        later = λ k r q lt. lookup-unexpired_later now k r rs (ap (lookup k) (sym h.synced) ∙ q) lt;
        ttl = refl;
      })

  table_of-append :
      (rs : List (ExpiringRecord K)) (r : ExpiringRecord K)
      → table_of (rs ++ r ∷ []) ≡ table_of rs ++ (r.key, r) ∷ []
  table_of-append [] r = refl
  table_of-append (x ∷ rs) r = rw (table_of-append rs r)

  -- A new key in a set with room.
  record Stored (key : K) (now : ℕ) (s t : ExpiringSet K) : Type 0 where
    synced : IsSynced t
    grows : size t ≡ suc (size s)

  store-Stored :
      (key : K) (now : ℕ) (s : ExpiringSet K)
      → IsSynced s
      → lookup key s.live_by_key ≡ none
      → size s < s.max_entries
      → Stored key now s (store key now s)
  unfolding store
  store-Stored key now s h new room =
      let r = fresh key now s in
      let a : insert key r s.live_by_key ≡ s.live_by_key ++ (key, r) ∷ [] =
        insert_absent key r s.live_by_key new in
      let len : length (insert key r s.live_by_key) ≡ suc (length s.live_by_key) =
        ap length a ∙ omega (arith, length-append s.live_by_key ((key, r) ∷ [])) in
      record {
        synced = record {
          synced =
              a
              ∙ ap (λ (c : Dict K (ExpiringRecord K)). c ++ (key, r) ∷ []) h.synced
              ∙ sym (table_of-append s.expiry_order r);
          distinct = Distinct-insert key r s.live_by_key h.distinct;
          some_room = h.some_room;
          within = omega (arith, len, room);
        };
        grows = len;
      }

  -- The room that is made for one more record: at most the oldest goes.
  record Room (s : ExpiringSet K) : Type 0 where
    evicted : ℕ
    after : ExpiringSet K
    runs :
        (if leb s.max_entries (length s.live_by_key) then evict_oldest_live else pure 0) s
        ≡ (ok evicted, after)
    synced : IsSynced after
    room : size after < after.max_entries
    counts : size s ≡ size after + evicted
    absent : (k : K) → lookup k s.live_by_key ≡ none → lookup k after.live_by_key ≡ none
    kept : evicted ≡ 0 → after ≡ s
    ttl : after.ttl ≡ s.ttl

  evict_order :
      (rs : List (ExpiringRecord K)) (s : ExpiringSet K)
      → IsSynced s
      → s.expiry_order ≡ rs
      → leb s.max_entries (length s.live_by_key) ≡ true
      → Room s
  unfolding evict_oldest_live evict_loop lookup
  evict_order [] s h i full = absurd (
      omega (
        arith,
        h.some_room,
        leb→le s.max_entries (length s.live_by_key) full,
        ap length (h.synced ∙ ap table_of i),
      ))
  evict_order (r ∷ rs) s h i full =
      let c : s.live_by_key ≡ table_of (r ∷ rs) = h.synced ∙ ap table_of i in
      let d : Distinct (table_of (r ∷ rs)) = rw c at h.distinct in
      record {
        evicted = 1;
        after = ordered rs s;
        runs =
            rw (full, i, evict_loop, ap (is_live r) c ∙ head_live r rs, remove_first r rs s c) refl;
        synced = record {
          synced = refl;
          distinct = d.1;
          some_room = h.some_room;
          within = omega (arith, h.within, ap length c);
        };
        room = omega (arith, h.within, ap length c);
        counts = omega (arith, ap length c);
        absent = λ k q. ground (arith, ap (lookup k) c);
        kept = λ q. absurd (omega (arith, q));
        ttl = refl;
      }

  Room-make : (s : ExpiringSet K) → IsSynced s → Room s
  Room-make s h = elim (Bool-cases (leb s.max_entries (length s.live_by_key))) [
    | inl full ↦ evict_order s.expiry_order s h refl full
    | inr roomy ↦ record {
      evicted = 0;
      after = s;
      runs = rw roomy refl;
      synced = h;
      room = ground arith;
      counts = omega arith;
      absent = λ k q. q;
      kept = λ q. refl;
      ttl = refl;
    }
  ]

  -- What `accept` does to a synced set.
  pub record Accepted (key : K) (now : ℕ) (s : ExpiringSet K) : Type 0 where
    pub admission : Admission
    pub after : ExpiringSet K
    pub runs : accept key now s ≡ (ok admission, after)
    pub synced : IsSynced after
    pub counts :
        size s + (if admission.accepted then 1 else 0)
        ≡ size after + (admission.expired + admission.capacity_evicted)
    pub ttl : after.ttl ≡ s.ttl
    pub decides : admission.accepted ≡ not (contains key (cleanup_expired now s).1.live_by_key)
    pub refused : admission.accepted ≡ false → admission.capacity_evicted ≡ 0
    -- without an eviction, the records that are not yet due stay, and so does the new one
    pub later :
        admission.capacity_evicted ≡ 0
        → (k : K) (r : ExpiringRecord K) → lookup k s.live_by_key ≡ some r
        → now < r.expires_at
        → lookup k after.live_by_key ≡ some r
    pub new :
        admission.accepted ≡ true
        → (r : ExpiringRecord K) × (lookup key after.live_by_key ≡ some r)
          × (r.expires_at ≡ now + s.ttl)

  pub accept-Accepted : (key : K) (now : ℕ) (s : ExpiringSet K) → IsSynced s → Accepted key now s
  unfolding accept
  accept-Accepted key now s h =
      let c = cleanup_expired-Cleaned now s h in
      let t = (cleanup_expired now s).1 in
      elim (Bool-cases (contains key t.live_by_key)) [
        | inl seen ↦ record {
          admission = record {
            accepted = false;
            expired = (cleanup_expired now s).0;
            capacity_evicted = 0;
          };
          after = t;
          runs = rw seen refl;
          synced = c.synced;
          counts = omega (arith, c.counts);
          ttl = c.ttl;
          decides = rw seen refl;
          refused = λ q. refl;
          later = λ q k r p lt. c.later k r p lt;
          new = λ q. absurd (ground arith);
        }
        | inr unseen ↦
            let m = Room-make t c.synced in
            let absent : lookup key t.live_by_key ≡ none = ground arith in
            let d = store-Stored key now m.after m.synced (m.absent key absent) m.room in
            record {
              admission = record {
                accepted = true;
                expired = (cleanup_expired now s).0;
                capacity_evicted = m.evicted;
              };
              after = store key now m.after;
              runs = rw (unseen, m.runs) refl;
              synced = d.synced;
              counts = omega (arith, c.counts, m.counts, d.grows);
              ttl = unfold store in m.ttl ∙ c.ttl;
              decides = rw unseen refl;
              refused = λ q. absurd (ground arith);
              later = λ q k r p lt.
                  (unfold store in
                    lookup-insert_other key k (fresh key now m.after) m.after.live_by_key (λ same.
                      ground (arith, ap (λ j. lookup j t.live_by_key) same, c.later k r p lt))
                    ∙ ap (λ (u : ExpiringSet K). lookup k u.live_by_key) (m.kept q)
                    ∙ c.later k r p lt);
              new = λ q. (
                fresh key now m.after,
                (unfold store in
                    lookup-insert_self key (fresh key now m.after) m.after.live_by_key),
                ap (λ x. now + x) (m.ttl ∙ c.ttl),
              );
            }
      ]

  pub contains_key-Cleaned :
      (key : K) (now : ℕ) (s : ExpiringSet K)
      → IsSynced s
      → Cleaned now s (contains_key key now s).0.1 (contains_key key now s).1
  unfolding contains_key
  contains_key-Cleaned key now s h = cleanup_expired-Cleaned now s h

  pub discard_all-IsSynced : (s : ExpiringSet K) → IsSynced s → IsSynced (discard_all s).1
  unfolding discard_all
  discard_all-IsSynced s h = record {
    synced = refl;
    distinct = tt;
    some_room = h.some_room;
    within = omega arith;
  }
