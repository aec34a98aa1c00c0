-- ===== src/Assembler.antt =====
-- assembler.py: correlation of multipart sentences. The methods of `AIVDMAssembler`, over the
-- object's state; what the clock returns is the argument `now`, in whole ticks.
pub mod Feed
pub mod Cleanup
pub mod Discards
pub mod Capacity
pub mod Opening
pub mod Ordinals
pub mod Fed
pub mod Invariant
pub mod Accounting
pub mod Reassembly
mod Tests
use aismixer.Prelude.{
  ℕ, zero, suc, ◌+◌, Bool, true, false, ◌&&◌, ◌||◌, Option, none, some, List, [], ◌∷◌, ◌++◌, ◌≡◌,
  ◌↔◌, arith, ltb, leb, max, Text, Eq, ◌==◌, list_beq_iff, nat_eq, text_eq, nat_beq, if◌then◌else◌,
  length, Error, key_error, value_error, Exec, pure, raise, ◌>>=◌, ◌>>◌, is_some,
}
use aismixer.Prelude.Dict.{Dict, keys, lookup, contains, insert, remove}
use aismixer.Prelude.Filter.{select_keys}
use aismixer.Prelude.Order.{text_ltb, sorted}

-- source identity, sequential ID, channel, declared total
pub record AssemblyKey : Type 0 where
  pub source_identity : Text
  pub sequential_id : Text
  pub channel : Text
  pub declared_total : ℕ

abbrev pub key_beq : AssemblyKey → AssemblyKey → Bool
key_beq a b =
    a.source_identity == b.source_identity
    && a.sequential_id == b.sequential_id
    && a.channel == b.channel
    && nat_beq a.declared_total b.declared_total

pub key_beq_iff : (a b : AssemblyKey) → (key_beq a b ≡ true) ↔ (a ≡ b)
key_beq_iff a b = ground (
  arith,
  list_beq_iff a.source_identity b.source_identity,
  list_beq_iff a.sequential_id b.sequential_id,
  list_beq_iff a.channel b.channel,
)

instance abbrev pub key_eq : Eq AssemblyKey
key_eq = record { beq = key_beq; beq_iff = key_beq_iff }

-- `a < b` on the key tuples: the first difference decides.
unfoldable pub key_ltb : AssemblyKey → AssemblyKey → Bool
unfolding text_ltb
key_ltb a b =
    if a.source_identity == b.source_identity
    then (if a.sequential_id == b.sequential_id
        then (if a.channel == b.channel
            then ltb a.declared_total b.declared_total
            else text_ltb a.channel b.channel)
        else text_ltb a.sequential_id b.sequential_id)
    else text_ltb a.source_identity b.source_identity

pub data AssemblyStatus : Type 0 where
  invalid single limit_exceeded pending duplicate conflict complete : AssemblyStatus

pub record AssemblyOutcome : Type 0 where
  pub status : AssemblyStatus
  pub group_key : Option AssemblyKey
  pub sentences : List Text
  pub discarded_keys : List AssemblyKey

-- the counters of `_outcome_counts`, one for each status
pub record OutcomeCounts : Type 0 where
  pub invalid_count : ℕ
  pub single_count : ℕ
  pub limit_exceeded_count : ℕ
  pub pending_count : ℕ
  pub duplicate_count : ℕ
  pub conflict_count : ℕ
  pub complete_count : ℕ

unfoldable pub bump : AssemblyStatus → OutcomeCounts → OutcomeCounts
bump invalid c = record c { invalid_count = c.invalid_count + 1 }
bump single c = record c { single_count = c.single_count + 1 }
bump limit_exceeded c = record c { limit_exceeded_count = c.limit_exceeded_count + 1 }
bump pending c = record c { pending_count = c.pending_count + 1 }
bump duplicate c = record c { duplicate_count = c.duplicate_count + 1 }
bump conflict c = record c { conflict_count = c.conflict_count + 1 }
bump complete c = record c { complete_count = c.complete_count + 1 }

pub record AssemblyGroup : Type 0 where
  pub fragments_by_ordinal : Dict ℕ Text
  pub last_progress_at : ℕ

abbrev pub received_count : AssemblyGroup → ℕ
received_count group = length group.fragments_by_ordinal

pub record Assembler : Type 0 where
  pub max_fragments_per_group : Option ℕ
  pub max_pending_groups : Option ℕ
  pub timeout : ℕ
  pub groups : Dict AssemblyKey AssemblyGroup
  pub outcome_counts : OutcomeCounts
  pub expired : ℕ
  pub capacity_evicted : ℕ
  pub reset_discarded : ℕ
  pub resets : ℕ
  pub peak_groups : ℕ
  pub peak_fragments : ℕ

-- `now - group.last_progress_at >= self.timeout`
unfoldable pub is_stale : ℕ → ℕ → AssemblyGroup → Bool
is_stale timeout now group = leb (group.last_progress_at + timeout) now

-- `limit is not None and n > limit`, and `limit is not None and n >= limit`
abbrev pub exceeds : Option ℕ → ℕ → Bool
exceeds none n = false
exceeds (some limit) n = ltb limit n

abbrev pub reaches : Option ℕ → ℕ → Bool
reaches none n = false
reaches (some limit) n = leb limit n

unfoldable pub outcome :
    AssemblyStatus
    → Option AssemblyKey
    → List Text
    → List AssemblyKey
    → Exec Assembler AssemblyOutcome
outcome status group_key sentences discarded_keys s =
    pure
      (record {
        status = status;
        group_key = group_key;
        sentences = sentences;
        discarded_keys = discarded_keys;
      })
      (record s { outcome_counts = bump status s.outcome_counts })

-- `del self._groups[key]`
unfoldable pub delete_group : AssemblyKey → Exec Assembler (Unit {0})
delete_group key s =
    if contains key s.groups
    then pure tt (record s { groups = remove key s.groups })
    else raise key_error s

unfoldable pub expire_group : AssemblyKey → Exec Assembler (Unit {0})
unfolding delete_group
expire_group key = do delete_group key; λ s. pure tt (record s { expired = s.expired + 1 })

unfoldable pub expire_groups : List AssemblyKey → Exec Assembler (Unit {0})
expire_groups [] = pure tt
expire_groups (key ∷ rest) = do expire_group key; expire_groups rest

abbrev pub expired_keys : ℕ → Assembler → List AssemblyKey
expired_keys now s = sorted key_ltb (select_keys (is_stale s.timeout now) s.groups)

unfoldable pub cleanup_expired : ℕ → Exec Assembler (List AssemblyKey)
cleanup_expired now s = (do expire_groups (expired_keys now s); pure (expired_keys now s)) s

-- the order of `min`: the older progress first, and the lesser key among equals
unfoldable pub precedes : AssemblyKey × AssemblyGroup → AssemblyKey × AssemblyGroup → Bool
precedes (k, g) (j, h) =
    if nat_beq g.last_progress_at h.last_progress_at
    then key_ltb k j
    else ltb g.last_progress_at h.last_progress_at

-- `min` over the groups; `none` for no group at all
unfoldable pub oldest : Dict AssemblyKey AssemblyGroup → Option (AssemblyKey × AssemblyGroup)
oldest [] = none
oldest ((k, g) ∷ rest) = elim (oldest rest) [
  | none ↦ some (k, g)
  | some best ↦ some (if precedes best (k, g) then best else (k, g))
]

unfoldable pub evict_capacity_victim : Exec Assembler AssemblyKey
evict_capacity_victim s = elim (oldest s.groups) [
  | none ↦ raise value_error s
  | some victim ↦
      (do
        delete_group victim.0
        λ t. pure victim.0 (record t { capacity_evicted = t.capacity_evicted + 1 }))
        s
]

abbrev pub sum_received : Dict AssemblyKey AssemblyGroup → ℕ
sum_received [] = 0
sum_received ((k, g) ∷ rest) = received_count g + sum_received rest

unfoldable pub update_peaks : Exec Assembler (Unit {0})
update_peaks s = pure tt (record s {
  peak_groups = max s.peak_groups (length s.groups);
  peak_fragments = max s.peak_fragments (sum_received s.groups);
})
