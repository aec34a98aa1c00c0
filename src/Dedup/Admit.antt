-- ===== src/Dedup/Admit.antt =====
-- dedup.py: `is_unique` on a cache that its index describes.
use aismixer.Prelude.{
  ℕ, suc, ◌+◌, ◌≤◌, Bool, true, false, not, none, some, List, [], ◌∷◌, ◌++◌, ◌≡◌, ◌⊎◌, refl, sym,
  ◌∙◌, ap, arith, Eq, if◌then◌else◌, length, length-append, ok, Bool-cases, inl, inr, Option-cases,
}
use aismixer.Prelude.Dict.{Dict, lookup, contains, insert, insert_absent, Distinct, Distinct-insert}
use aismixer.Dedup.{
  Entry, Deduplicator, is_cached, cleanup_expired, evict_loop, evict_oldest_live, is_full,
  evict_while_full, store, admit,
}
use aismixer.Dedup.Sync.{
  indexed, IsSynced, head_cached, remove_head, cleanup_expired_lem, cleanup_expired-IsSynced,
}

module _ {K : Type 0} ⦃e : Eq K⦄ where
  abbrev pub evicted : List (Entry K) → Deduplicator K → Deduplicator K
  evicted xs s = record s {
    cache = indexed xs;
    expiry_index = xs;
    capacity_evicted = s.capacity_evicted + 1;
  }

  -- The oldest entry goes.
  pub evict_oldest_live_head :
      (x : Entry K) (xs : List (Entry K)) (s : Deduplicator K)
      → IsSynced s
      → s.expiry_index ≡ x ∷ xs
      → evict_oldest_live s ≡ (ok tt, evicted xs s)
  unfolding evict_oldest_live evict_loop
  evict_oldest_live_head x xs s h i =
      let c : s.cache ≡ indexed (x ∷ xs) = h.synced ∙ ap indexed i in
      rw (i, evict_loop, ap (is_cached x) c ∙ head_cached x xs) (ground (arith, remove_head x xs))

  -- The room that the eviction loop makes: one entry at most goes, the oldest.
  pub record Room (s : Deduplicator K) : Type 0 where
    pub after : Deduplicator K
    pub runs : evict_while_full (suc (length s.cache)) s ≡ (ok tt, after)
    pub synced : IsSynced after
    pub room : is_full after ≡ false
    pub dropped :
        ((is_full s ≡ false) × (after ≡ s))
        ⊎ ((x : Entry K) × (xs : List (Entry K)) × (s.expiry_index ≡ x ∷ xs)
            × (after ≡ evicted xs s)
            × (is_full s ≡ true))

  List-cases :
      (xs : List (Entry K)) → (xs ≡ []) ⊎ ((x : Entry K) × (ys : List (Entry K)) × (xs ≡ x ∷ ys))
  List-cases [] = inl refl
  List-cases (x ∷ xs) = inr (x, xs, refl)

  evicted-IsSynced :
      (x : Entry K) (xs : List (Entry K)) (s : Deduplicator K)
      → IsSynced s
      → s.expiry_index ≡ x ∷ xs
      → IsSynced (evicted xs s) × (length s.cache ≡ suc (length (indexed xs)))
  evicted-IsSynced x xs s h i =
      let c : s.cache ≡ indexed (x ∷ xs) = h.synced ∙ ap indexed i in
      let d : Distinct (indexed (x ∷ xs)) = rw c at h.distinct in
      (
        record {
          synced = refl;
          distinct = d.1;
          limit = λ n q. omega (arith, h.limit n q, ap length c);
          peak = omega (arith, h.peak, ap length c);
        },
        ap length c,
      )

  full_limit :
      (s : Deduplicator K)
      → is_full s ≡ true
      → (n : ℕ) × (s.max_entries ≡ some n) × (n ≤ length s.cache)
  full_limit s f = elim (Option-cases s.max_entries) [
    | inl q ↦ absurd (ground arith)
    | inr (n, q) ↦ (n, q, ground arith)
  ]

  Room-full : (s : Deduplicator K) → IsSynced s → is_full s ≡ true → Room s
  unfolding evict_while_full
  Room-full s h f =
      let (n, q, le) = full_limit s f in
      elim (List-cases s.expiry_index) [
        | inl empty ↦
            absurd (omega (arith, h.limit n q, le, ap length (h.synced ∙ ap indexed empty)))
        | inr (x, xs, i) ↦
            let (k, len) = evicted-IsSynced x xs s h i in
            let roomy : is_full (evicted xs s) ≡ false = ground (arith, h.limit n q) in
            record {
              after = evicted xs s;
              runs = rw (len, f, evict_oldest_live_head x xs s h i, roomy) refl;
              synced = k;
              room = roomy;
              dropped = inr (x, xs, i, refl, f);
            }
      ]

  pub evict_while_full-Room : (s : Deduplicator K) → IsSynced s → Room s
  unfolding evict_while_full
  evict_while_full-Room s h = elim (Bool-cases (is_full s)) [
    | inl f ↦ Room-full s h f
    | inr f ↦ record { after = s; runs = rw f refl; synced = h; room = f; dropped = inl (f, refl) }
  ]

  indexed-append :
      (xs : List (Entry K)) (x : Entry K) → indexed (xs ++ x ∷ []) ≡ indexed xs ++ (x.key, x) ∷ []
  indexed-append [] x = refl
  indexed-append (y ∷ ys) x = rw (indexed-append ys x)

  abbrev pub fresh_entry : ℕ → K → Deduplicator K → Entry K
  fresh_entry now key s = record { id = s.next_id; inserted_at = now; key = key }

  store-IsSynced :
      (now : ℕ) (key : K) (s : Deduplicator K)
      → IsSynced s
      → lookup key s.cache ≡ none
      → is_full s ≡ false
      → IsSynced (store now key s)
  unfolding store
  store-IsSynced now key s h new room =
      let x = fresh_entry now key s in
      let a : insert key x s.cache ≡ s.cache ++ (key, x) ∷ [] = insert_absent key x s.cache new in
      let len : length (insert key x s.cache) ≡ suc (length s.cache) =
        ap length a ∙ omega (arith, length-append s.cache ((key, x) ∷ [])) in
      record {
        synced =
            a
            ∙ ap (λ (c : Dict K (Entry K)). c ++ (key, x) ∷ []) h.synced
            ∙ sym (indexed-append s.expiry_index x);
        distinct = Distinct-insert key x s.cache h.distinct;
        limit = λ n q. ground (arith, h.limit n q, len);
        peak = omega (arith, len);
      }

  -- What `is_unique` does to a synced cache.
  pub record Admitted (now : ℕ) (key : K) (s : Deduplicator K) : Type 0 where
    pub unique : Bool
    pub after : Deduplicator K
    pub runs : admit now key s ≡ (ok unique, after)
    pub synced : IsSynced after
    pub decides : unique ≡ not (contains key (cleanup_expired now s).cache)
    pub ttl : after.ttl ≡ s.ttl
    pub max_entries : after.max_entries ≡ s.max_entries
    -- with no limit, the index grows by the new entry alone
    pub entry : Entry K
    pub entry_at : entry.inserted_at ≡ now
    pub entry_key : entry.key ≡ key
    pub index :
        s.max_entries ≡ none
        → after.expiry_index ≡ (
            if unique
            then (cleanup_expired now s).expiry_index ++ entry ∷ []
            else (cleanup_expired now s).expiry_index)

  Room-settings :
      (s : Deduplicator K) (r : Room s)
      → (r.after.ttl ≡ s.ttl) × (r.after.max_entries ≡ s.max_entries)
  Room-settings s r = elim r.dropped [
    | inl (f, q) ↦ rw q (refl, refl)
    | inr (x, xs, i, q, f) ↦ rw q (refl, refl)
  ]

  Room-unlimited :
      (s : Deduplicator K) (r : Room s)
      → s.max_entries ≡ none
      → r.after.expiry_index ≡ s.expiry_index
  Room-unlimited s r m = elim r.dropped [
    | inl (f, q) ↦ rw q refl
    | inr (x, xs, i, q, f) ↦ absurd (ground arith)
  ]

  cleanup-settings :
      (now : ℕ) (s : Deduplicator K)
      → IsSynced s
      → ((cleanup_expired now s).ttl ≡ s.ttl)
        × ((cleanup_expired now s).max_entries ≡ s.max_entries)
  cleanup-settings now s h = rw (cleanup_expired_lem now s h) (refl, refl)

  -- the new key is still absent after the eviction
  Room-absent :
      (key : K) (s : Deduplicator K) (r : Room s)
      → IsSynced s
      → lookup key s.cache ≡ none
      → lookup key r.after.cache ≡ none
  unfolding lookup
  Room-absent key s r h new = elim r.dropped [
    | inl (f, q) ↦ rw q new
    | inr (x, xs, i, q, f) ↦
        let c : s.cache ≡ indexed (x ∷ xs) = h.synced ∙ ap indexed i in
        rw q (ground (arith, rw c at new))
  ]

  -- On a synced cache `is_unique` returns an answer, never an error, and leaves a synced cache
  -- within `max_entries`; the answer is whether the key is absent once the expired entries went.
  pub admit-Admitted : (now : ℕ) (key : K) (s : Deduplicator K) → IsSynced s → Admitted now key s
  unfolding admit store
  admit-Admitted now key s h =
      let t = cleanup_expired now s in
      let k = cleanup_expired-IsSynced now s h in
      let set = cleanup-settings now s h in
      elim (Bool-cases (contains key t.cache)) [
        | inl seen ↦ record {
          unique = false;
          after = record t { duplicates = t.duplicates + 1 };
          runs = rw seen refl;
          synced = record {
            synced = k.synced;
            distinct = k.distinct;
            limit = k.limit;
            peak = k.peak;
          };
          decides = rw seen refl;
          ttl = set.0;
          max_entries = set.1;
          entry = fresh_entry now key t;
          entry_at = refl;
          entry_key = refl;
          index = λ m. refl;
        }
        | inr new ↦
            let r = evict_while_full-Room t k in
            record {
              unique = true;
              after = store now key r.after;
              runs = rw (new, r.runs) refl;
              synced =
                  store-IsSynced now key r.after r.synced (Room-absent key t r k (ground arith))
                    r.room;
              decides = rw new refl;
              ttl = (Room-settings t r).0 ∙ set.0;
              max_entries = (Room-settings t r).1 ∙ set.1;
              entry = fresh_entry now key r.after;
              entry_at = refl;
              entry_key = refl;
              index = λ m.
                  ap (λ (xs : List (Entry K)). xs ++ fresh_entry now key r.after ∷ [])
                    (Room-unlimited t r (set.1 ∙ m));
            }
      ]
