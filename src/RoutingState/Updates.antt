-- ===== src/RoutingState/Updates.antt =====
-- core/routing_state.py: optimistic updates, and calls of `replace` in any order.
use aismixer.Prelude.{
  ℕ, suc, ◌+◌, ◌≤◌, ◌<◌, Bool, true, false, Option, none, some, List, [], ◌∷◌, ◌≡◌, ◌≢◌, ◌⊎◌, refl,
  arith, nat_beq, if◌then◌else◌, Bool-cases, inl, inr,
}
use aismixer.Routing.Targets.{RoutingTable}
use aismixer.RoutingState.{
  RoutingSnapshot, Update, updated, refused, is_valid_table, is_stale, replace,
}

-- a call of `replace`
pub record Request : Type 0 where
  pub table : Option RoutingTable
  pub expected : Option ℕ

abbrev pub went_through : Update → Bool
went_through (updated s) = true
went_through (refused e) = false

-- The calls in the order in which they get the lock: the last snapshot, and how many of the calls
-- that count went through.
unfoldable pub updates : (Request → Bool) → List Request → RoutingSnapshot → ℕ × RoutingSnapshot
updates counts [] s = (0, s)
updates counts (r ∷ rest) s =
    let (answer, t) = replace r.table r.expected s in
    let (n, u) = updates counts rest t in
    ((if went_through answer then (if counts r then suc n else n) else n), u)

abbrev pub expects : ℕ → Request → Bool
expects g r = elim r.expected [ none ↦ false | some h ↦ nat_beq h g ]

-- One call: it goes through exactly if the table has its plan and the expected generation, if one
-- is given, is the current one. Then the generation grows by one and the table is the one given;
-- otherwise nothing changes.
pub replace-cases :
    (table : Option RoutingTable) (expected : Option ℕ) (s : RoutingSnapshot)
    → ((went_through (replace table expected s).0 ≡ true)
        × (is_valid_table table ≡ true)
        × ((g : ℕ) → expected ≡ some g → g ≡ s.generation)
        × ((replace table expected s).1 ≡ record { generation = s.generation + 1; table = table }))
      ⊎ ((went_through (replace table expected s).0 ≡ false)
          × ((is_valid_table table ≡ false) ⊎ ((g : ℕ) × (expected ≡ some g) × (g ≢ s.generation)))
          × ((replace table expected s).1 ≡ s))
unfolding replace is_stale
replace-cases table none s = elim (Bool-cases (is_valid_table table)) [
  | inl valid ↦ inl (rw valid refl, valid, (λ g q. absurd (ground arith)), rw valid refl)
  | inr no_plan ↦ inr (rw no_plan refl, inl no_plan, rw no_plan refl)
]
replace-cases table (some h) s = elim (Bool-cases (is_valid_table table)) [
  | inr no_plan ↦ inr (rw no_plan refl, inl no_plan, rw no_plan refl)
  | inl valid ↦ elim (Bool-cases (nat_beq h s.generation)) [
    | inl same ↦ inl (rw (valid, same) refl, valid, (λ g q. ground arith), rw (valid, same) refl)
    | inr other ↦
        inr (rw (valid, other) refl, inr (h, refl, λ q. ground arith), rw (valid, other) refl)
  ]
]

-- After any calls of `replace`, in any order, the generation has grown by the number of those that
-- went through.
pub generation-updates :
    (rs : List Request) (s : RoutingSnapshot)
    → (updates (λ r. true) rs s).1.generation ≡ s.generation + (updates (λ r. true) rs s).0
unfolding updates
generation-updates [] s = omega arith
generation-updates (r ∷ rest) s = ground (
  arith,
  replace-cases r.table r.expected s,
  generation-updates rest (replace r.table r.expected s).1,
)

expects-some : (g : ℕ) (r : Request) → expects g r ≡ true → r.expected ≡ some g
expects-some g r h = ground arith

abbrev next_of : Request → RoutingSnapshot → RoutingSnapshot
next_of r s = record { generation = s.generation + 1; table = r.table }

-- Once the generation is past `g`, no update that expects `g` goes through.
past_none :
    (g : ℕ) (rs : List Request) (s : RoutingSnapshot)
    → g < s.generation
    → (updates (expects g) rs s).0 ≡ 0
unfolding updates
past_none g [] s lt = refl
past_none g (r ∷ rest) s lt = elim (replace-cases r.table r.expected s) [
  | inl (through, valid, current, next) ↦
      rw (through, next)
        (ground (arith, current g, expects-some g r, past_none g rest (next_of r s)))
  | inr (refusal, why, same) ↦ rw (refusal, same) (past_none g rest s lt)
]

-- Of all updates that expect the same generation, at most one goes through, whatever other updates
-- come between.
pub one_winner :
    (g : ℕ) (rs : List Request) (s : RoutingSnapshot) → (updates (expects g) rs s).0 ≤ 1
unfolding updates
one_winner g [] s = omega arith
one_winner g (r ∷ rest) s = elim (replace-cases r.table r.expected s) [
  | inl (through, valid, current, next) ↦
      rw (through, next)
        (ground (
          arith,
          current g,
          expects-some g r,
          past_none g rest (next_of r s),
          one_winner g rest (next_of r s),
        ))
  | inr (refusal, why, same) ↦ rw (refusal, same) (one_winner g rest s)
]
