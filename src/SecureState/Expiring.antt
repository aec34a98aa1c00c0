-- ===== src/SecureState/Expiring.antt =====
-- aismixer_secure.py: `_BoundedExpiringSet`. A record of the set is an object: the `id` tells two
-- records apart where the code compares by `is`. Times are whole ticks.
pub mod Sync
pub mod Replays
use aismixer.Prelude.{
  ℕ, ◌+◌, Bool, true, false, ◌&&◌, List, [], ◌∷◌, ◌++◌, none, some, leb, ltb, nat_beq, Eq,
  if◌then◌else◌, length, runtime_error, Exec, pure, raise, ◌>>=◌,
}
use aismixer.Prelude.Dict.{Dict, lookup, contains, insert, remove}

pub record ExpiringRecord (K : Type 0) : Type 0 where
  pub id : ℕ
  pub key : K
  pub expires_at : ℕ

pub record ExpiringSet (K : Type 0) : Type 0 where
  pub ttl : ℕ
  pub max_entries : ℕ
  pub live_by_key : Dict K (ExpiringRecord K)
  pub expiry_order : List (ExpiringRecord K)
  pub next_id : ℕ

pub record Admission : Type 0 where
  pub accepted : Bool
  pub expired : ℕ
  pub capacity_evicted : ℕ

abbrev pub empty_set : {K : Type 0} → ℕ → ℕ → ExpiringSet K
empty_set ttl max_entries = record {
  ttl = ttl;
  max_entries = max_entries;
  live_by_key = [];
  expiry_order = [];
  next_id = 0;
}

-- `len(set)`
abbrev pub size : {K : Type 0} → ExpiringSet K → ℕ
size s = length s.live_by_key

module _ {K : Type 0} ⦃e : Eq K⦄ where
  -- `self._live_by_key.get(record.key) is record`
  abbrev pub is_live : ExpiringRecord K → Dict K (ExpiringRecord K) → Bool
  is_live r live = elim (lookup r.key live) [ none ↦ false | some found ↦ nat_beq found.id r.id ]

  -- `popleft()`, and the record goes from the set if it is the live one of its key.
  abbrev pub drop_record :
      ExpiringRecord K → List (ExpiringRecord K) → ExpiringSet K → ExpiringSet K
  drop_record r rest s =
      if is_live r s.live_by_key
      then record s { live_by_key = remove r.key s.live_by_key; expiry_order = rest }
      else record s { expiry_order = rest }

  -- the loop of `_cleanup_expired` over the order; `expired` counts the records that were live
  unfoldable pub cleanup_loop : ℕ → List (ExpiringRecord K) → ℕ → ExpiringSet K → ℕ × ExpiringSet K
  cleanup_loop now [] expired s = (expired, s)
  cleanup_loop now (r ∷ rest) expired s =
      let live = is_live r s.live_by_key in
      if live && ltb now r.expires_at
      then (expired, s)
      else cleanup_loop now rest (if live then expired + 1 else expired) (drop_record r rest s)

  unfoldable pub cleanup_expired : ℕ → ExpiringSet K → ℕ × ExpiringSet K
  unfolding cleanup_loop
  cleanup_expired now s = cleanup_loop now s.expiry_order 0 s

  -- the loop of `_evict_oldest_live`
  unfoldable pub evict_loop : List (ExpiringRecord K) → Exec (ExpiringSet K) ℕ
  evict_loop [] s = raise runtime_error (record s { expiry_order = [] })
  evict_loop (r ∷ rest) s =
      if is_live r s.live_by_key then pure 1 (drop_record r rest s) else evict_loop rest s

  unfoldable pub evict_oldest_live : Exec (ExpiringSet K) ℕ
  unfolding evict_loop
  evict_oldest_live s = evict_loop s.expiry_order s

  unfoldable pub contains_key : K → ℕ → ExpiringSet K → (Bool × ℕ) × ExpiringSet K
  unfolding cleanup_expired
  contains_key key now s =
      let (expired, t) = cleanup_expired now s in ((contains key t.live_by_key, expired), t)

  abbrev pub fresh : K → ℕ → ExpiringSet K → ExpiringRecord K
  fresh key now s = record { id = s.next_id; key = key; expires_at = now + s.ttl }

  unfoldable pub store : K → ℕ → ExpiringSet K → ExpiringSet K
  store key now s = record s {
    live_by_key = insert key (fresh key now s) s.live_by_key;
    expiry_order = s.expiry_order ++ fresh key now s ∷ [];
    next_id = s.next_id + 1;
  }

  unfoldable pub accept : K → ℕ → Exec (ExpiringSet K) Admission
  unfolding cleanup_expired evict_oldest_live store
  accept key now s =
      let (expired, t) = cleanup_expired now s in
      if contains key t.live_by_key
      then pure (record { accepted = false; expired = expired; capacity_evicted = 0 }) t
      else (do
        evicted ← if leb t.max_entries (length t.live_by_key) then evict_oldest_live else pure 0
        λ u.
            pure (record { accepted = true; expired = expired; capacity_evicted = evicted })
              (store key now u))
          t

  unfoldable pub discard_all : ExpiringSet K → ℕ × ExpiringSet K
  discard_all s = (length s.live_by_key, record s { live_by_key = []; expiry_order = [] })
