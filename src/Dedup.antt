-- ===== src/Dedup.antt =====
-- dedup.py: `Deduplicator`. An entry of the cache is an object: the `id` tells two entries apart
-- where the code compares by `is`. What the clock returns is the argument `now`, in whole ticks.
pub mod Sync
pub mod Admit
pub mod Reference
mod Tests
use aismixer.Prelude.{
  ℕ, zero, suc, ◌+◌, Bool, true, false, ◌&&◌, Option, none, some, List, [], ◌∷◌, ◌++◌, ◌≡◌, ◌↔◌,
  arith, ltb, leb, max, nat_beq, Eq, ◌==◌, option_beq, option_beq_iff, if◌then◌else◌, length,
  runtime_error, Exec, pure, raise, ◌>>=◌, ◌>>◌, is_some,
}
use aismixer.Prelude.Dict.{Dict, lookup, contains, insert, remove}

-- `none` is the sentinel `_GLOBAL_SCOPE`.
pub record CacheKey (S M : Type 0) : Type 0 where
  pub scope : Option S
  pub message : M

module _ {S M : Type 0} ⦃es : Eq S⦄ ⦃em : Eq M⦄ where
  abbrev pub cache_key_beq : CacheKey S M → CacheKey S M → Bool
  cache_key_beq a b = option_beq a.scope b.scope && a.message == b.message

  pub cache_key_beq_iff : (a b : CacheKey S M) → (cache_key_beq a b ≡ true) ↔ (a ≡ b)
  cache_key_beq_iff a b =
      ground (arith, option_beq_iff a.scope b.scope, em.beq_iff a.message b.message)

  instance abbrev pub cache_key_eq : Eq (CacheKey S M)
  cache_key_eq = record { beq = cache_key_beq; beq_iff = cache_key_beq_iff }

-- `_cache_key`
unfoldable pub cache_key : {S M : Type 0} → M → Option S → CacheKey S M
cache_key message scope = record { scope = scope; message = message }

pub record Entry (K : Type 0) : Type 0 where
  pub id : ℕ
  pub inserted_at : ℕ
  pub key : K

pub record Deduplicator (K : Type 0) : Type 0 where
  pub ttl : ℕ
  pub max_entries : Option ℕ
  pub cache : Dict K (Entry K)
  pub expiry_index : List (Entry K)
  pub next_id : ℕ
  pub accepted : ℕ
  pub duplicates : ℕ
  pub expired : ℕ
  pub capacity_evicted : ℕ
  pub resets : ℕ
  pub peak_entries : ℕ

module _ {K : Type 0} ⦃e : Eq K⦄ where
  -- `self.cache.get(key) is entry`
  abbrev pub is_cached : Entry K → Dict K (Entry K) → Bool
  is_cached entry cache = elim (lookup entry.key cache) [
    | none ↦ false
    | some found ↦ nat_beq found.id entry.id
  ]

  -- `popleft()`, and the entry goes from the cache if it is the one that stands there.
  unfoldable pub expire_entry : Entry K → List (Entry K) → Deduplicator K → Deduplicator K
  expire_entry entry rest s =
      if is_cached entry s.cache
      then record s {
        cache = remove entry.key s.cache;
        expiry_index = rest;
        expired = s.expired + 1;
      }
      else record s { expiry_index = rest }

  -- the loop of `cleanup_expired` over the index
  unfoldable pub cleanup_loop : ℕ → List (Entry K) → Deduplicator K → Deduplicator K
  unfolding expire_entry
  cleanup_loop now [] s = s
  cleanup_loop now (entry ∷ rest) s =
      if ltb now (entry.inserted_at + s.ttl)
      then s
      else cleanup_loop now rest (expire_entry entry rest s)

  unfoldable pub cleanup_expired : ℕ → Deduplicator K → Deduplicator K
  unfolding cleanup_loop
  cleanup_expired now s = cleanup_loop now s.expiry_index s

  -- the loop of `_evict_oldest_live`
  unfoldable pub evict_loop : List (Entry K) → Exec (Deduplicator K) (Unit {0})
  evict_loop [] s = raise runtime_error (record s { expiry_index = [] })
  evict_loop (entry ∷ rest) s =
      if is_cached entry s.cache
      then pure tt (record s {
        cache = remove entry.key s.cache;
        expiry_index = rest;
        capacity_evicted = s.capacity_evicted + 1;
      })
      else evict_loop rest s

  unfoldable pub evict_oldest_live : Exec (Deduplicator K) (Unit {0})
  unfolding evict_loop
  evict_oldest_live s = evict_loop s.expiry_index s

  -- `self.max_entries is not None and len(self.cache) >= self.max_entries`
  abbrev pub is_full : Deduplicator K → Bool
  is_full s = elim s.max_entries [ none ↦ false | some limit ↦ leb limit (length s.cache) ]

  -- the eviction loop of `is_unique`; each round takes one entry, so the cache's size is fuel enough
  unfoldable pub evict_while_full : ℕ → Exec (Deduplicator K) (Unit {0})
  unfolding evict_oldest_live
  evict_while_full zero s = pure tt s
  evict_while_full (suc fuel) s =
      let rest = (do evict_oldest_live; evict_while_full fuel) s in
      if is_full s then rest else pure tt s

  unfoldable pub store : ℕ → K → Deduplicator K → Deduplicator K
  store now key s =
      let entry : Entry K = record { id = s.next_id; inserted_at = now; key = key } in
      let cache : Dict K (Entry K) = insert key entry s.cache in
      record s {
        cache = cache;
        expiry_index = s.expiry_index ++ entry ∷ [];
        next_id = s.next_id + 1;
        accepted = s.accepted + 1;
        peak_entries = max s.peak_entries (length cache);
      }

  -- `is_unique`, over the key
  unfoldable pub admit : ℕ → K → Exec (Deduplicator K) Bool
  unfolding cleanup_expired evict_while_full store
  admit now key s =
      let t = cleanup_expired now s in
      if contains key t.cache
      then pure false (record t { duplicates = t.duplicates + 1 })
      else (do evict_while_full (suc (length t.cache)); λ u. pure true (store now key u)) t

  unfoldable pub reset : Deduplicator K → ℕ × Deduplicator K
  reset s = (length s.cache, record s { cache = []; expiry_index = []; resets = s.resets + 1 })

pub record DedupStats : Type 0 where
  pub accepted : ℕ
  pub duplicates : ℕ
  pub expired : ℕ
  pub capacity_evicted : ℕ
  pub resets : ℕ
  pub current_entries : ℕ
  pub peak_entries : ℕ

unfoldable pub stats : {K : Type 0} → Deduplicator K → DedupStats
stats s = record {
  accepted = s.accepted;
  duplicates = s.duplicates;
  expired = s.expired;
  capacity_evicted = s.capacity_evicted;
  resets = s.resets;
  current_entries = length s.cache;
  peak_entries = s.peak_entries;
}

-- `Deduplicator(ttl, clock, max_entries)`: a limit below 1 is refused.
unfoldable pub init : {K : Type 0} → ℕ → Option ℕ → Option (Deduplicator K)
init ttl max_entries =
    if elim max_entries [ none ↦ false | some limit ↦ ltb limit 1 ]
    then none
    else some (record {
      ttl = ttl;
      max_entries = max_entries;
      cache = [];
      expiry_index = [];
      next_id = 0;
      accepted = 0;
      duplicates = 0;
      expired = 0;
      capacity_evicted = 0;
      resets = 0;
      peak_entries = 0;
    })

-- `is_unique(message, scope)`
unfoldable pub is_unique :
    {S M : Type 0} ⦃es : Eq S⦄ ⦃em : Eq M⦄
    → ℕ
    → M
    → Option S
    → Exec (Deduplicator (CacheKey S M)) Bool
unfolding cache_key admit
is_unique now message scope = admit now (cache_key message scope)
