-- ===== src/Assembler/Feed.antt =====
-- assembler.py: `_feed_validated_fragment`, `reset` and `stats`.
use aismixer.Prelude.{
  ℕ, zero, suc, ◌+◌, Bool, true, false, Option, none, some, List, [], ◌∷◌, ◌++◌, Text, ◌==◌, nat_eq,
  text_eq, if◌then◌else◌, length, key_error, Exec, pure, raise, ◌>>=◌, ◌>>◌,
}
use aismixer.Prelude.Dict.{Dict, keys, lookup, insert}
use aismixer.Prelude.Order.{sorted}
use aismixer.Assembler.{
  AssemblyKey, key_eq, key_ltb, single, limit_exceeded, pending, duplicate, conflict, complete,
  AssemblyOutcome, OutcomeCounts, AssemblyGroup, received_count, Assembler, is_stale, exceeds,
  reaches, outcome, delete_group, expire_group, cleanup_expired, evict_capacity_victim,
  sum_received, update_peaks,
}

-- The live group of the key, and the keys discarded before it is used.
unfoldable pub expire_stale :
    ℕ → AssemblyKey → Exec Assembler (Option AssemblyGroup × List AssemblyKey)
unfolding expire_group is_stale
expire_stale now key s = elim (lookup key s.groups) [
  | none ↦ pure (none, []) s
  | some group ↦
      if is_stale s.timeout now group
      then (do expire_group key; pure (none, key ∷ [])) s
      else pure (some group, []) s
]

-- Room for one more group; `true` beside the discarded keys if the cleanup was performed.
unfoldable pub make_room : ℕ → Exec Assembler (List AssemblyKey × Bool)
unfolding cleanup_expired evict_capacity_victim
make_room now s =
    if reaches s.max_pending_groups (length s.groups)
    then (do
      expired ← cleanup_expired now
      λ t.
          if reaches t.max_pending_groups (length t.groups)
          then (do victim ← evict_capacity_victim; pure (expired ++ victim ∷ [], true)) t
          else pure (expired, true) t)
        s
    else pure ([], false) s

pub record Opened : Type 0 where
  pub group : AssemblyGroup
  pub discarded : List AssemblyKey
  pub cleaned : Bool

abbrev pub empty_group : ℕ → AssemblyGroup
empty_group now = record { fragments_by_ordinal = []; last_progress_at = now }

unfoldable pub open_group : ℕ → AssemblyKey → Exec Assembler Opened
unfolding expire_stale make_room
open_group now key = do
  (found, stale) ← expire_stale now key
  elim found [
    | some group ↦ pure (record { group = group; discarded = stale; cleaned = false })
    | none ↦ do
      (evicted, cleaned) ← make_room now
      λ t.
          pure (record { group = empty_group now; discarded = stale ++ evicted; cleaned = cleaned })
            (record t { groups = insert key (empty_group now) t.groups })
  ]

-- `fragments[index] for index in range(first, first + count)`
unfoldable pub collect : Dict ℕ Text → ℕ → ℕ → Exec Assembler (List Text)
collect fragments index zero = pure []
collect fragments index (suc count) = elim (lookup index fragments) [
  | none ↦ raise key_error
  | some line ↦ do rest ← collect fragments (suc index) count; pure (line ∷ rest)
]

-- The two ways out for an ordinal that the group already has.
unfoldable pub repeat_fragment :
    ℕ → AssemblyKey → Text → Text → List AssemblyKey → Exec Assembler AssemblyOutcome
unfolding delete_group cleanup_expired outcome
repeat_fragment now key stored sentence_text discarded =
    if stored == sentence_text
    then (do
      expired ← cleanup_expired now
      outcome duplicate (some key) [] (sorted key_ltb (discarded ++ expired)))
    else (do
      delete_group key
      expired ← cleanup_expired now
      outcome conflict (some key) [] (sorted key_ltb (discarded ++ key ∷ expired)))

abbrev pub extended : ℕ → ℕ → Text → AssemblyGroup → AssemblyGroup
extended now ordinal sentence_text group = record {
  fragments_by_ordinal = insert ordinal sentence_text group.fragments_by_ordinal;
  last_progress_at = now;
}

-- A new ordinal: the group object is shared with the table, so the write shows there.
unfoldable pub new_fragment : ℕ → AssemblyKey → ℕ → Text → Opened → Exec Assembler AssemblyOutcome
unfolding collect delete_group cleanup_expired update_peaks outcome
new_fragment now key ordinal sentence_text opened s =
    let group = extended now ordinal sentence_text opened.group in
    let t = record s { groups = insert key group s.groups } in
    if received_count group == key.declared_total
    then (do
      full_lines ← collect group.fragments_by_ordinal 1 key.declared_total
      delete_group key
      outcome complete (some key) full_lines (sorted key_ltb opened.discarded))
        t
    else (do
      expired ← if opened.cleaned then pure [] else cleanup_expired now
      update_peaks
      outcome pending (some key) [] (sorted key_ltb (opened.discarded ++ expired)))
        t

unfoldable pub add_fragment : ℕ → AssemblyKey → ℕ → Text → Opened → Exec Assembler AssemblyOutcome
unfolding repeat_fragment new_fragment
add_fragment now key ordinal sentence_text opened =
    elim (lookup ordinal opened.group.fragments_by_ordinal) [
      | some stored ↦ repeat_fragment now key stored sentence_text opened.discarded
      | none ↦ new_fragment now key ordinal sentence_text opened
    ]

unfoldable pub feed_validated_fragment :
    ℕ → Text → Text → ℕ → ℕ → Text → Text → Exec Assembler AssemblyOutcome
unfolding open_group add_fragment outcome
feed_validated_fragment now source_identity sentence_text declared_total ordinal sequential_id
      channel s =
    if declared_total == 1
    then outcome single none (sentence_text ∷ []) [] s
    else if exceeds s.max_fragments_per_group declared_total
    then outcome limit_exceeded none [] [] s
    else let key : AssemblyKey = record {
      source_identity = source_identity;
      sequential_id = sequential_id;
      channel = channel;
      declared_total = declared_total;
    } in
      (do opened ← open_group now key; add_fragment now key ordinal sentence_text opened) s

unfoldable pub reset : Assembler → List AssemblyKey × Assembler
reset s =
    let discarded_keys = sorted key_ltb (keys s.groups) in
    (
      discarded_keys,
      record s {
        groups = [];
        resets = s.resets + 1;
        reset_discarded = s.reset_discarded + length discarded_keys;
      },
    )

pub record AssemblerStats : Type 0 where
  pub outcomes : OutcomeCounts
  pub expired : ℕ
  pub capacity_evicted : ℕ
  pub reset_discarded : ℕ
  pub resets : ℕ
  pub current_groups : ℕ
  pub peak_groups : ℕ
  pub current_fragments : ℕ
  pub peak_fragments : ℕ

unfoldable pub stats : Assembler → AssemblerStats
stats s = record {
  outcomes = s.outcome_counts;
  expired = s.expired;
  capacity_evicted = s.capacity_evicted;
  reset_discarded = s.reset_discarded;
  resets = s.resets;
  current_groups = length s.groups;
  peak_groups = s.peak_groups;
  current_fragments = sum_received s.groups;
  peak_fragments = s.peak_fragments;
}
