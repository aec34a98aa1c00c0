-- ===== src/Processor/Checked.antt =====
-- core/python_data_plane.py: the checks of the deduplicator in `_process_impl`.
use aismixer.Prelude.{
  ℕ, not, Option, none, some, List, [], ◌∷◌, ◌≡◌, refl, Text, if◌then◌else◌, ok, Exec, nat_eq,
  text_eq,
}
use aismixer.Assembler.{key_eq}
use aismixer.Dedup.{cache_key_eq, Deduplicator, is_unique, cache_key}
use aismixer.Dedup.Sync.{IsSynced}
use aismixer.Dedup.Admit.{admit-Admitted}
use aismixer.Processor.{
  is_empty, lines_eq, LogicalKey, DeduplicationMode, global, per_target, unique_targets,
  check_unique,
}

-- A run of the deduplicator that returns and leaves a synced cache.
pub record Checked {A : Type 0} (run : Exec (Deduplicator LogicalKey) A)
    (s : Deduplicator LogicalKey) : Type 0 where
  pub result : A
  pub after : Deduplicator LogicalKey
  pub runs : run s ≡ (ok result, after)
  pub synced : IsSynced after

unique_targets-Checked :
    (now : Option ℕ → ℕ) (logical_key : List Text) (targets : List ℕ) (s : Deduplicator LogicalKey)
    → IsSynced s
    → Checked (unique_targets now logical_key targets) s
unfolding unique_targets is_unique
unique_targets-Checked now logical_key [] s h = record {
  result = [];
  after = s;
  runs = refl;
  synced = h;
}
unique_targets-Checked now logical_key (target ∷ rest) s h =
    let a = admit-Admitted (now (some target)) (cache_key logical_key (some target)) s h in
    let r = unique_targets-Checked now logical_key rest a.after a.synced in
    record {
      result = if a.unique then target ∷ r.result else r.result;
      after = r.after;
      runs = rw (a.runs, r.runs) refl;
      synced = r.synced;
    }

pub check_unique-Checked :
    (now : Option ℕ → ℕ) (mode : DeduplicationMode) (logical_key : List Text) (targets : List ℕ)
    (s : Deduplicator LogicalKey)
    → IsSynced s
    → Checked (check_unique now mode logical_key targets) s
unfolding check_unique is_unique
check_unique-Checked now global logical_key targets s h =
    let a = admit-Admitted (now none) (cache_key logical_key none) s h in
    record {
      result = (targets, a.unique);
      after = a.after;
      runs = rw a.runs refl;
      synced = a.synced;
    }
check_unique-Checked now per_target logical_key targets s h =
    let r = unique_targets-Checked now logical_key targets s h in
    record {
      result = (r.result, not (is_empty r.result));
      after = r.after;
      runs = rw r.runs refl;
      synced = r.synced;
    }
