-- ===== src/SourceState/Associated.antt =====
-- core/state/s_cache.py: the live sources and the states associated with them.
use aismixer.Prelude.{
  ℕ, ◌+◌, true, Option, none, some, List, [], ◌∷◌, ◌≡◌, refl, arith, Text, nat_eq, text_eq,
  list_beq_iff, if◌then◌else◌, length, member, Bool-cases, inl, inr,
}
use aismixer.Prelude.Dict.{
  Dict, length-keys, lookup, contains, remove, Distinct, lookup-insert, lookup-remove,
  Distinct-insert, Distinct-remove,
}
use aismixer.TtlMap.{touch, clear}
use aismixer.TtlMap.Bounded.{touch-Touched}
use aismixer.TtlMap.Bounded
use aismixer.SourceState.{PerSource, SourceState, on_s_evict, touch_value, touch_s, reset}

pub record IsValid (s : SourceState) : Type 0 where
  pub map : Bounded.IsValid s.s_cache
  pub distinct : Distinct s.per_s_state
  pub associated : (k : Text) → contains k s.s_cache.d ≡ true → contains k s.per_s_state ≡ true

on_s_evict_lem :
    (keys : List Text) (states : Dict Text PerSource)
    → Distinct states
    → Distinct (on_s_evict keys states)
      × ((k : Text)
          → lookup k (on_s_evict keys states) ≡ (if member k keys then none else lookup k states))
unfolding on_s_evict
on_s_evict_lem [] states u = (u, λ k. refl)
on_s_evict_lem (key ∷ rest) states u =
    let (v, h) = on_s_evict_lem rest (remove key states) (Distinct-remove key states u) in
    (v, λ k. ground (arith, h k, lookup-remove key k states u))

touch_value-IsValid :
    (now : ℕ) (value : Text) (s : SourceState) → IsValid s → IsValid (touch_value now value s)
unfolding touch_value
touch_value-IsValid now value s v =
    let t = touch-Touched value now s.s_cache v.map in
    let evicted = (touch value now s.s_cache).0 in
    let (u, h) = on_s_evict_lem evicted s.per_s_state v.distinct in
    let states = on_s_evict evicted s.per_s_state in
    elim (Bool-cases (contains value states)) [
      | inl there ↦ rw there (record {
        map = t.valid;
        distinct = u;
        associated = λ k c. ground (
          arith,
          h k,
          t.reports k,
          v.associated k,
          lookup-insert value k (now + s.s_cache.ttl_ns) s.s_cache.d,
          list_beq_iff value k,
        );
      })
      | inr new ↦ rw new (record {
        map = t.valid;
        distinct = Distinct-insert value [] states u;
        associated = λ k c. ground (
          arith,
          h k,
          t.reports k,
          v.associated k,
          lookup-insert value k (now + s.s_cache.ttl_ns) s.s_cache.d,
          lookup-insert value k [] states,
        );
      })
    ]

-- `touch_s` keeps the map within its limit, and every live source keeps an associated state,
-- whatever keys the touch evicts.
pub touch_s-IsValid :
    (now : ℕ) (s_value : Option Text) (s : SourceState)
    → IsValid s
    → IsValid (touch_s now s_value s)
unfolding touch_s
touch_s-IsValid now none s v = v
touch_s-IsValid now (some []) s v = v
touch_s-IsValid now (some (c ∷ value)) s v = touch_value-IsValid now (c ∷ value) s v

-- `reset` leaves no source and no associated state, and returns the number of live sources.
pub reset_empties :
    (now : ℕ) (s : SourceState)
    → ((reset now s).0 ≡ length s.s_cache.d)
      × ((reset now s).1.s_cache.d ≡ [])
      × ((reset now s).1.per_s_state ≡ [])
unfolding reset clear
reset_empties now s = (length-keys s.s_cache.d, refl, refl)

pub reset-IsValid : (now : ℕ) (s : SourceState) → IsValid (reset now s).1
unfolding reset clear lookup
reset-IsValid now s = record {
  map = record {
    distinct = tt;
    queued_live = λ k x p. absurd (ground arith);
    bounded = omega arith;
  };
  distinct = tt;
  associated = λ k c. absurd (ground arith);
}
