-- ===== src/TtlMap.antt =====
-- core/utils/ttlmap.py: `TTLMap`. An operation returns, beside the new map, the keys for which it
-- called `on_evict`, in the order of the calls. Times are whole nanoseconds; `now` is what the
-- caller passes or the clock returns.
pub mod Loops
pub mod Bounded
mod Tests
use aismixer.Prelude.{
  ℕ, zero, suc, ◌+◌, Bool, true, false, ◌&&◌, ◌||◌, Option, none, some, List, [], ◌∷◌, ◌++◌, ltb,
  leb, nat_beq, Eq, if◌then◌else◌, length,
}
use aismixer.Prelude.Dict.{Dict, keys, lookup, insert, remove}

pub record TtlMap (K : Type 0) : Type 0 where
  pub ttl_ns : ℕ
  pub max_entries : ℕ
  pub sweep_every_ns : ℕ
  pub ops_per_sweep : ℕ
  pub d : Dict K ℕ
  pub q : List (ℕ × K)
  pub last_sweep_ns : ℕ
  pub ops : ℕ

-- What a loop over the queue leaves: the keys evicted, the queue and the table.
pub record Swept (K : Type 0) : Type 0 where
  pub evicted : List K
  pub queue : List (ℕ × K)
  pub table : Dict K ℕ

-- `cur is not None and cur <= now_ns and cur == exp`
abbrev pub is_current : ℕ → ℕ → Option ℕ → Bool
is_current now exp none = false
is_current now exp (some cur) = leb cur now && nat_beq cur exp

-- `hard or cur <= now_ns`, for a key that is there
abbrev pub is_evictable : Bool → ℕ → Option ℕ → Bool
is_evictable hard now none = false
is_evictable hard now (some cur) = hard || leb cur now

module _ {K : Type 0} ⦃e : Eq K⦄ where
  -- one more key evicted before the rest of the loop
  abbrev pub evicting : K → Swept K → Swept K
  evicting key w = record w { evicted = key ∷ w.evicted }

  -- the loop of `_sweep`
  unfoldable pub sweep_loop : ℕ → List (ℕ × K) → Dict K ℕ → Swept K
  sweep_loop now [] d = record { evicted = []; queue = []; table = d }
  sweep_loop now ((exp, key) ∷ rest) d =
      let stop : Swept K = record { evicted = []; queue = (exp, key) ∷ rest; table = d } in
      let current = is_current now exp (lookup key d) in
      let after = sweep_loop now rest (if current then remove key d else d) in
      if leb exp now then (if current then evicting key after else after) else stop

  -- the loop of `_evict_oldest`
  unfoldable pub evict_loop : Bool → ℕ → ℕ → List (ℕ × K) → Dict K ℕ → Swept K
  evict_loop hard target now [] d = record { evicted = []; queue = []; table = d }
  evict_loop hard target now ((exp, key) ∷ rest) d =
      let stop : Swept K = record { evicted = []; queue = (exp, key) ∷ rest; table = d } in
      let evictable = is_evictable hard now (lookup key d) in
      let after = evict_loop hard target now rest (if evictable then remove key d else d) in
      if ltb target (length d) then (if evictable then evicting key after else after) else stop

  -- the map after such a loop
  abbrev pub swept : Swept K → TtlMap K → TtlMap K
  swept w m = record m { d = w.table; q = w.queue }

  unfoldable pub sweep : ℕ → TtlMap K → List K × TtlMap K
  unfolding sweep_loop
  sweep now m = let w = sweep_loop now m.q m.d in (w.evicted, swept w m)

  unfoldable pub evict_oldest : ℕ → Bool → TtlMap K → List K × TtlMap K
  unfolding evict_loop
  evict_oldest now hard m =
      let w = evict_loop hard m.max_entries now m.q m.d in (w.evicted, swept w m)

  unfoldable pub maybe_sweep : ℕ → TtlMap K → List K × TtlMap K
  unfolding sweep
  maybe_sweep now m =
      let ops = m.ops + 1 in
      if leb m.ops_per_sweep ops || leb (m.last_sweep_ns + m.sweep_every_ns) now
      then (let (evicted, s) = sweep now m in (evicted, record s { ops = 0; last_sweep_ns = now }))
      else ([], record m { ops = ops })

  unfoldable pub evict_key_if_expired : K → ℕ → TtlMap K → List K × TtlMap K
  evict_key_if_expired key now m = elim (lookup key m.d) [
    | none ↦ ([], m)
    | some exp ↦ if leb exp now then (key ∷ [], record m { d = remove key m.d }) else ([], m)
  ]

  unfoldable pub touch : K → ℕ → TtlMap K → List K × TtlMap K
  unfolding maybe_sweep evict_oldest
  touch key now m =
      let exp = now + m.ttl_ns in
      let (first, s) =
        maybe_sweep now (record m { d = insert key exp m.d; q = m.q ++ (exp, key) ∷ [] }) in
      if ltb s.max_entries (length s.d)
      then (let (second, t) = evict_oldest now true s in (first ++ second, t))
      else (first, s)

  -- the answer, the keys evicted and the map
  unfoldable pub contains_key : K → ℕ → TtlMap K → Bool × List K × TtlMap K
  unfolding maybe_sweep evict_key_if_expired
  contains_key key now m = elim (lookup key m.d) [
    | none ↦ (let (evicted, s) = maybe_sweep now m in (false, evicted, s))
    | some exp ↦
        if leb exp now
        then (let (evicted, s) = evict_key_if_expired key now m in (false, evicted, s))
        else (let (evicted, s) = maybe_sweep now m in (true, evicted, s))
  ]

  -- `now` is the clock's reading for `_last_sweep_ns`. The result is the number of live keys.
  unfoldable pub clear : ℕ → TtlMap K → ℕ × List K × TtlMap K
  clear now m =
      (length (keys m.d), keys m.d, record m { d = []; q = []; ops = 0; last_sweep_ns = now })
