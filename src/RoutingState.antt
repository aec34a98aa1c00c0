-- ===== src/RoutingState.antt =====
-- core/routing_state.py: the holder of the active routing snapshot. Each call runs under the
-- state's lock, so concurrent callers are an order of whole calls.
pub mod Updates
mod Tests
use aismixer.Prelude.{
  ℕ, ◌+◌, Bool, true, false, not, Option, none, some, nat_beq, if◌then◌else◌, is_some,
}
use aismixer.Routing.Targets.{RoutingTable}

pub record RoutingSnapshot : Type 0 where
  pub generation : ℕ
  pub table : Option RoutingTable

pub data UpdateError : Type 0 where
  no_compiled_plan : UpdateError
  stale_generation : (expected_generation : ℕ) → (actual_generation : ℕ) → UpdateError

pub data Update : Type 0 where
  updated : RoutingSnapshot → Update
  refused : UpdateError → Update

-- `_validate_table`
unfoldable pub is_valid_table : Option RoutingTable → Bool
is_valid_table none = true
is_valid_table (some table) = is_some table.compiled

-- `expected is not None and expected != current.generation`
unfoldable pub is_stale : Option ℕ → RoutingSnapshot → Bool
is_stale none current = false
is_stale (some expected) current = not (nat_beq expected current.generation)

-- the generation that a stale update expected; it is read only then
abbrev expected_of : Option ℕ → ℕ
expected_of none = 0
expected_of (some expected) = expected

-- `replace`: the answer, and the snapshot that the state holds afterwards
unfoldable pub replace : Option RoutingTable → Option ℕ → RoutingSnapshot → Update × RoutingSnapshot
unfolding is_valid_table is_stale
replace table expected current =
    if is_valid_table table
    then (if is_stale expected current
        then (refused (stale_generation (expected_of expected) current.generation), current)
        else let next : RoutingSnapshot = record {
          generation = current.generation + 1;
          table = table;
        } in
          (updated next, next))
    else (refused no_compiled_plan, current)

-- the constructor; `none` where it raises
unfoldable pub init : Option RoutingTable → Option RoutingSnapshot
unfolding is_valid_table
init initial_table =
    if is_valid_table initial_table
    then some (record { generation = 0; table = initial_table })
    else none
