-- ===== src/TtlMap/Loops.antt =====
-- core/utils/ttlmap.py: the loops of `_sweep` and `_evict_oldest`.
use aismixer.Prelude.{
  ℕ, ◌≤◌, ◌<◌, Bool, true, false, ◌&&◌, ◌||◌, none, some, List, [], ◌∷◌, ◌≡◌, refl, arith, leb,
  nat_beq, Eq, ◌==◌, if◌then◌else◌, length, member, Bool-cases, inl, inr,
}
use aismixer.Prelude.Dict.{
  Dict, lookup, remove, Distinct, lookup-remove, Distinct-remove, length-remove,
}
use aismixer.TtlMap.{Swept, evicting, is_current, sweep_loop}

module _ {K : Type 0} ⦃e : Eq K⦄ where
  -- the record of the key with this expiry stands in the queue
  abbrev pub queued : ℕ → K → List (ℕ × K) → Bool
  queued exp key [] = false
  queued exp key ((x, k) ∷ q) = nat_beq x exp && k == key || queued exp key q

  -- Every live key has its current record in the queue.
  abbrev pub Queued : List (ℕ × K) → Dict K ℕ → Type 0
  Queued q d = (k : K) (exp : ℕ) → lookup k d ≡ some exp → queued exp k q ≡ true

  -- Popping the first record, with the key removed if the record is the current one.
  pub Queued-pop :
      (exp : ℕ) (key : K) (q : List (ℕ × K)) (d : Dict K ℕ)
      → Distinct d
      → Queued ((exp, key) ∷ q) d
      → Queued q (remove key d)
  Queued-pop exp key q d u h k x p = ground (arith, lookup-remove key k d u, h k x, e.beq_iff key k)

  -- The loop of `_sweep` keeps the queue invariant, removes expired keys alone and reports each.
  pub record SweepKeeps (now : ℕ) (d : Dict K ℕ) (w : Swept K) : Type 0 where
    pub distinct : Distinct w.table
    pub queued_left : Queued w.queue w.table
    pub live : (k : K) (exp : ℕ) → lookup k d ≡ some exp → now < exp → lookup k w.table ≡ some exp
    pub reported : (k : K) → lookup k w.table ≡ (if member k w.evicted then none else lookup k d)
    pub shorter : length w.table ≤ length d

  SweepKeeps-evicting :
      (now exp : ℕ) (key : K) (d : Dict K ℕ) (w : Swept K)
      → Distinct d
      → is_current now exp (lookup key d) ≡ true
      → SweepKeeps now (remove key d) w
      → SweepKeeps now d (evicting key w)
  SweepKeeps-evicting now exp key d w u current r = record {
    distinct = r.distinct;
    queued_left = r.queued_left;
    live = λ k x p lt. r.live k x (ground (arith, lookup-remove key k d u, e.beq_iff key k)) lt;
    reported = λ k. ground (arith, r.reported k, lookup-remove key k d u);
    shorter = ground (arith, r.shorter, length-remove key d);
  }

  pub sweep_loop-SweepKeeps :
      (now : ℕ) (q : List (ℕ × K)) (d : Dict K ℕ)
      → Distinct d
      → Queued q d
      → SweepKeeps now d (sweep_loop now q d)
  unfolding sweep_loop
  sweep_loop-SweepKeeps now [] d u h = record {
    distinct = u;
    queued_left = h;
    live = λ k exp p lt. p;
    reported = λ k. refl;
    shorter = omega arith;
  }
  sweep_loop-SweepKeeps now ((exp, key) ∷ q) d u h = elim (Bool-cases (leb exp now)) [
    | inr later ↦ rw later (record {
      distinct = u;
      queued_left = h;
      live = λ k x p lt. p;
      reported = λ k. refl;
      shorter = omega arith;
    })
    | inl due ↦ elim (Bool-cases (is_current now exp (lookup key d))) [
      | inl current ↦
          rw (due, current)
            (SweepKeeps-evicting now exp key d (sweep_loop now q (remove key d)) u current (
              sweep_loop-SweepKeeps now q (remove key d) (Distinct-remove key d u)
                (Queued-pop exp key q d u h)))
      | inr stale ↦
          rw (due, stale)
            (sweep_loop-SweepKeeps now q d u (λ k x p. ground (arith, h k x p, e.beq_iff key k)))
    ]
  ]
