-- ===== src/Dedup/Sync.antt =====
-- dedup.py: the expiry index and the cache, and the loops that take entries out of both.
use aismixer.Prelude.{
  ℕ, suc, ◌+◌, ◌-◌, ◌≤◌, true, none, some, List, [], ◌∷◌, ◌≡◌, refl, ◌∙◌, ap, arith, ltb, Eq,
  if◌then◌else◌, length, Bool-cases, inl, inr,
}
use aismixer.Prelude.Dict.{Dict, lookup, remove, Distinct}
use aismixer.Dedup.{Entry, Deduplicator, is_cached, expire_entry, cleanup_loop, cleanup_expired}

module _ {K : Type 0} ⦃e : Eq K⦄ where
  -- The cache that an index of live entries describes.
  abbrev pub indexed : List (Entry K) → Dict K (Entry K)
  indexed [] = []
  indexed (x ∷ xs) = (x.key, x) ∷ indexed xs

  pub record IsSynced (s : Deduplicator K) : Type 0 where
    pub synced : s.cache ≡ indexed s.expiry_index
    pub distinct : Distinct s.cache
    pub limit : (n : ℕ) → s.max_entries ≡ some n → (1 ≤ n) × (length s.cache ≤ n)
    pub peak : length s.cache ≤ s.peak_entries

  pub head_cached : (x : Entry K) (xs : List (Entry K)) → is_cached x (indexed (x ∷ xs)) ≡ true
  unfolding lookup
  head_cached x xs = ground (arith, e.beq_iff x.key x.key)

  pub remove_head :
      (x : Entry K) (xs : List (Entry K)) → remove x.key (indexed (x ∷ xs)) ≡ indexed xs
  unfolding remove
  remove_head x xs = ground (arith, e.beq_iff x.key x.key)

  -- What the cleanup leaves: the index from the first entry on that is not expired.
  unfoldable pub unexpired : ℕ → ℕ → List (Entry K) → List (Entry K)
  unexpired ttl now [] = []
  unexpired ttl now (x ∷ xs) =
      let rest = unexpired ttl now xs in if ltb now (x.inserted_at + ttl) then x ∷ xs else rest

  abbrev pub with_index : List (Entry K) → ℕ → Deduplicator K → Deduplicator K
  with_index xs n s = record s { cache = indexed xs; expiry_index = xs; expired = s.expired + n }

  length-unexpired : (ttl now : ℕ) (xs : List (Entry K)) → length (unexpired ttl now xs) ≤ length xs
  unfolding unexpired
  length-unexpired ttl now [] = omega arith
  length-unexpired ttl now (x ∷ xs) = ground (arith, length-unexpired ttl now xs)

  pub length-indexed : (xs : List (Entry K)) → length (indexed xs) ≡ length xs
  length-indexed [] = refl
  length-indexed (x ∷ xs) = ap suc (length-indexed xs)

  expire_entry_head :
      (x : Entry K) (xs : List (Entry K)) (s : Deduplicator K)
      → s.cache ≡ indexed (x ∷ xs)
      → expire_entry x xs s ≡ with_index xs 1 s
  unfolding expire_entry
  expire_entry_head x xs s c =
      rw (ap (is_cached x) c ∙ head_cached x xs) (ground (arith, remove_head x xs))

  cleanup_loop-unexpired :
      (now : ℕ) (xs : List (Entry K)) (s : Deduplicator K)
      → s.cache ≡ indexed xs
      → s.expiry_index ≡ xs
      → cleanup_loop now xs s
        ≡ with_index (unexpired s.ttl now xs) (length xs - length (unexpired s.ttl now xs)) s
  unfolding cleanup_loop unexpired
  cleanup_loop-unexpired now [] s c i = ground arith
  cleanup_loop-unexpired now (x ∷ xs) s c i = elim (Bool-cases (ltb now (x.inserted_at + s.ttl))) [
    | inl live ↦ rw live (ground arith)
    | inr old ↦
        rw (old, expire_entry_head x xs s c)
          (cleanup_loop-unexpired now xs (with_index xs 1 s) refl refl
            ∙ ground (arith, length-unexpired s.ttl now xs))
  ]

  -- On a synced cache the cleanup drops the expired entries at the front.
  pub cleanup_expired_lem :
      (now : ℕ) (s : Deduplicator K)
      → IsSynced s
      → cleanup_expired now s
        ≡ with_index
            (unexpired s.ttl now s.expiry_index)
            (length s.expiry_index - length (unexpired s.ttl now s.expiry_index))
            s
  unfolding cleanup_expired
  cleanup_expired_lem now s h = cleanup_loop-unexpired now s.expiry_index s h.synced refl

  lookup-unexpired-none :
      (ttl now : ℕ) (k : K) (xs : List (Entry K))
      → lookup k (indexed xs) ≡ none
      → lookup k (indexed (unexpired ttl now xs)) ≡ none
  unfolding unexpired lookup
  lookup-unexpired-none ttl now k [] h = refl
  lookup-unexpired-none ttl now k (x ∷ xs) h = ground (arith, lookup-unexpired-none ttl now k xs)

  Distinct-unexpired :
      (ttl now : ℕ) (xs : List (Entry K))
      → Distinct (indexed xs)
      → Distinct (indexed (unexpired ttl now xs))
  unfolding unexpired
  Distinct-unexpired ttl now [] h = tt
  Distinct-unexpired ttl now (x ∷ xs) h = ground (arith, Distinct-unexpired ttl now xs)

  pub cleanup_expired-IsSynced :
      (now : ℕ) (s : Deduplicator K) → IsSynced s → IsSynced (cleanup_expired now s)
  cleanup_expired-IsSynced now s h =
      let xs = unexpired s.ttl now s.expiry_index in
      let shorter : length (indexed xs) ≤ length s.cache = ground (
        arith,
        h.synced,
        length-indexed xs,
        length-indexed s.expiry_index,
        length-unexpired s.ttl now s.expiry_index,
      ) in
      rw (cleanup_expired_lem now s h) (record {
        synced = refl;
        distinct = Distinct-unexpired s.ttl now s.expiry_index (rw h.synced at h.distinct);
        limit = λ n q. ground (arith, h.limit n q, shorter);
        peak = ground (arith, h.peak, shorter);
      })
