-- ===== src/Prelude/Filter.antt =====
-- Selecting the entries of a `dict` by a test on the value, and dropping them.
use Prim.Native.Nat.{◌+◌}
use mathlib.Core.Path.{◌≡◌, refl}
use mathlib.Core.Bool.{Bool, false}
use mathlib.Core.Option.{Option, none, some}
use mathlib.Core.List.{List, [], ◌∷◌}
use native.Mathlib.Omega.{arith}
use aismixer.Prelude.Tests.{if◌then◌else◌}
use aismixer.Prelude.Lists.{length}
use aismixer.Prelude.Keys.{Eq, member, Unique}
use aismixer.Prelude.Dict.{Dict, lookup, remove, Distinct}

-- The value, if there is one and it does not pass the test.
abbrev pub keep {κ} : {V : Type κ} → (V → Bool) → Option V → Option V
keep p none = none
keep p (some v) = if p v then none else some v

module _ {ℓ κ} {K : Type ℓ} {V : Type κ} (p : V → Bool) where
  -- `[k for k, v in d.items() if p(v)]`
  unfoldable pub select_keys : Dict K V → List K
  select_keys [] = []
  select_keys ((k, v) ∷ d) = let rest = select_keys d in if p v then k ∷ rest else rest

  -- The entries that do not pass the test.
  unfoldable pub reject : Dict K V → Dict K V
  reject [] = []
  reject ((k, v) ∷ d) = let rest = reject d in if p v then rest else (k, v) ∷ rest

  pub length-reject : (d : Dict K V) → length (reject d) + length (select_keys d) ≡ length d
  unfolding reject select_keys
  length-reject [] = omega arith
  length-reject ((k, v) ∷ d) = ground (arith, length-reject d)

module _ {ℓ κ} {K : Type ℓ} {V : Type κ} ⦃e : Eq K⦄ where
  -- The entries whose keys are not listed.
  unfoldable pub without : List K → Dict K V → Dict K V
  without ks [] = []
  without ks ((k, v) ∷ d) = let rest = without ks d in if member k ks then rest else (k, v) ∷ rest

  without-absent :
      (k : K) (ks : List K) (d : Dict K V) → lookup k d ≡ none → without (k ∷ ks) d ≡ without ks d
  unfolding without lookup
  without-absent k ks [] h = refl
  without-absent k ks ((j, v) ∷ d) h =
      ground (arith, without-absent k ks d, e.beq_iff j k, e.beq_iff k j)

  pub without-remove :
      (k : K) (ks : List K) (d : Dict K V)
      → Distinct d
      → without ks (remove k d) ≡ without (k ∷ ks) d
  unfolding without remove
  without-remove k ks [] h = refl
  without-remove k ks ((j, v) ∷ d) h =
      ground (arith, without-remove k ks d, without-absent k ks d, e.beq_iff j k, e.beq_iff k j)

  pub without-nil : (d : Dict K V) → without [] d ≡ d
  unfolding without
  without-nil [] = refl
  without-nil ((k, v) ∷ d) = rw (without-nil d)

  module _ (p : V → Bool) where
    pub without-reject :
        (ks : List K) (d : Dict K V)
        → ((k : K) (v : V) → lookup k d ≡ some v → member k ks ≡ p v)
        → Distinct d
        → without ks d ≡ reject p d
    unfolding without reject lookup
    without-reject ks [] h u = refl
    without-reject ks ((j, v) ∷ d) h u = ground (
      arith,
      h j v,
      e.beq_iff j j,
      without-reject ks d (λ k w q. h k w (ground (arith, e.beq_iff j k))) u.1,
    )

    pub lookup-reject :
        (k : K) (d : Dict K V) → Distinct d → lookup k (reject p d) ≡ keep p (lookup k d)
    unfolding reject lookup
    lookup-reject k [] u = refl
    lookup-reject k ((j, v) ∷ d) u = ground (arith, lookup-reject k d, e.beq_iff j k)

    pub Distinct-reject : (d : Dict K V) → Distinct d → Distinct (reject p d)
    unfolding reject
    Distinct-reject [] u = tt
    Distinct-reject ((j, v) ∷ d) u = ground (arith, lookup-reject j d, Distinct-reject d)

    pub member-select_keys :
        (k : K) (d : Dict K V)
        → Distinct d
        → member k (select_keys p d) ≡ elim (lookup k d) [ none ↦ false | some v ↦ p v ]
    unfolding select_keys lookup
    member-select_keys k [] u = refl
    member-select_keys k ((j, v) ∷ d) u = ground (arith, member-select_keys k d, e.beq_iff j k)

    pub Unique-select_keys : (d : Dict K V) → Distinct d → Unique (select_keys p d)
    unfolding select_keys
    Unique-select_keys [] u = tt
    Unique-select_keys ((j, v) ∷ d) u = ground (arith, member-select_keys j d, Unique-select_keys d)
