-- ===== src/TtlMap/Tests.antt =====
-- Runs of the map on small inputs, and the theorems at inputs that meet their hypotheses.
use aismixer.Prelude.{ℕ, [], ◌∷◌, ◌≡◌, refl, arith, nat_eq, ltb}
use aismixer.Prelude.Dict.{lookup, insert, remove}
use aismixer.TtlMap.{TtlMap, touch, contains_key}
use aismixer.TtlMap.Bounded.{
  IsValid, Touched, touch-Touched, Looked, contains_key-Looked, contains_key-touch,
}

abbrev full : TtlMap ℕ
full = record {
  ttl_ns = 100;
  max_entries = 1;
  sweep_every_ns = 1000;
  ops_per_sweep = 50;
  d = (4, 110) ∷ [];
  q = (105, 4) ∷ (110, 4) ∷ [];
  last_sweep_ns = 0;
  ops = 0;
}

full-IsValid : IsValid full
unfolding lookup
full-IsValid = record {
  distinct = (refl, tt);
  queued_live = λ k x p. ground arith;
  bounded = omega arith;
}

touch-Touched_example : Touched 5 20 full (touch 5 20 full).0 (touch 5 20 full).1
touch-Touched_example = touch-Touched 5 20 full full-IsValid

contains_key-Looked_example :
    Looked 4 60 full
      (contains_key 4 60 full).0
      (contains_key 4 60 full).1
      (contains_key 4 60 full).2
contains_key-Looked_example = contains_key-Looked 4 60 full full-IsValid

contains_key-touch_example : (contains_key 5 119 (touch 5 20 full).1).0 ≡ ltb 119 120
unfolding touch insert remove lookup
contains_key-touch_example = contains_key-touch 5 20 119 full full-IsValid refl

-- A key whose older records are still queued is evicted by its own touch: the queue's first record
-- decides, whatever expiry the table has.
evicts_itself : (touch 4 40 (touch 5 20 full).1).0 ≡ 4 ∷ []
unfolding touch insert remove lookup
evicts_itself = refl
