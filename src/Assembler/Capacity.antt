-- ===== src/Assembler/Capacity.antt =====
-- assembler.py: the capacity limit; the victim that is evicted, and the room that is made.
use aismixer.Prelude.{
  ℕ, suc, ◌+◌, ◌≤◌, Bool, true, false, Option, none, some, List, [], ◌∷◌, ◌++◌, ◌≡◌, ◌≢◌, refl,
  arith, if◌then◌else◌, length, ok, Option-cases, Bool-cases, inl, inr, lt→leb-false,
}
use aismixer.Prelude.Dict.{Dict, lookup, contains, remove, Distinct, length-remove, lookup-remove}
use aismixer.Assembler.{
  AssemblyKey, key_eq, key_beq_iff, AssemblyGroup, Assembler, delete_group, reaches, expired_keys,
  precedes, oldest, evict_capacity_victim,
}
use aismixer.Assembler.Cleanup.{cleaned_up, cleanup_expired_lem}
use aismixer.Assembler.Discards.{
  Discards, Discards-nil, Discards-append, Discards-cleaned_up, Discards-one,
}
use aismixer.Assembler.Feed.{make_room}

abbrev Entry : Type 0
Entry = AssemblyKey × AssemblyGroup

-- `oldest` fails on the empty table alone.
oldest-some :
    (k : AssemblyKey) (g : AssemblyGroup) (d : Dict AssemblyKey AssemblyGroup)
    → (v : Entry) × (oldest ((k, g) ∷ d) ≡ some v)
unfolding oldest
oldest-some k g d = elim (Option-cases (oldest d)) [
  | inl e ↦ ((k, g), rw e)
  | inr (b, e) ↦ (if precedes b (k, g) then b else (k, g), rw e)
]

oldest-none : (d : Dict AssemblyKey AssemblyGroup) → oldest d ≡ none → length d ≡ 0
unfolding oldest
oldest-none [] h = refl
oldest-none ((k, g) ∷ d) h = let (v, e) = oldest-some k g d in absurd (ground arith)

lookup_of_empty :
    (k : AssemblyKey) (d : Dict AssemblyKey AssemblyGroup) → length d ≡ 0 → lookup k d ≡ none
unfolding lookup
lookup_of_empty k [] h = refl
lookup_of_empty k (e ∷ d) h = absurd (omega arith)

-- The victim is an entry of the table.
oldest-lookup :
    (d : Dict AssemblyKey AssemblyGroup) (v : Entry)
    → Distinct d
    → oldest d ≡ some v
    → lookup v.0 d ≡ some v.1
unfolding oldest lookup
oldest-lookup [] v u h = absurd (ground arith)
oldest-lookup ((k, g) ∷ d) v u h = elim (Option-cases (oldest d)) [
  | inl e ↦ ground (arith, key_beq_iff k v.0)
  | inr (b, e) ↦
      ground (arith, oldest-lookup d b u.1 e, key_beq_iff k v.0, key_beq_iff k b.0, key_beq_iff k k)
]

precedes-le : (a b : Entry) → precedes a b ≡ true → a.1.last_progress_at ≤ b.1.last_progress_at
unfolding precedes
precedes-le a b h = ground arith

precedes-false-le :
    (a b : Entry) → precedes a b ≡ false → b.1.last_progress_at ≤ a.1.last_progress_at
unfolding precedes
precedes-false-le a b h = ground arith

-- No group in the table has an earlier last progress than the one that `min` picks.
oldest-le :
    (d : Dict AssemblyKey AssemblyGroup) (v : Entry) (k : AssemblyKey) (g : AssemblyGroup)
    → oldest d ≡ some v
    → lookup k d ≡ some g
    → v.1.last_progress_at ≤ g.last_progress_at
unfolding oldest lookup
oldest-le [] v k g h q = absurd (ground arith)
oldest-le ((j, f) ∷ d) v k g h q = elim (Option-cases (oldest d)) [
  | inl e ↦ ground (arith, lookup_of_empty k d (oldest-none d e))
  | inr (b, e) ↦
      ground (arith, oldest-le d b k g e, precedes-le b (j, f), precedes-false-le b (j, f))
]

abbrev pub evicted : AssemblyKey → Assembler → Assembler
evicted k s = record s { groups = remove k s.groups; capacity_evicted = s.capacity_evicted + 1 }

-- On a table that is not empty the eviction does not raise, and one group goes.
evict_some :
    (s : Assembler) (v : Entry)
    → Distinct s.groups
    → oldest s.groups ≡ some v
    → (evict_capacity_victim s ≡ (ok v.0, evicted v.0 s))
      × Discards (v.0 ∷ []) s (evicted v.0 s)
      × (length s.groups ≡ suc (length (evicted v.0 s).groups))
unfolding evict_capacity_victim delete_group
evict_some s v u h =
    let q = oldest-lookup s.groups v u h in
    let c : contains v.0 s.groups ≡ true = rw q refl in
    (
      ground arith,
      Discards-one v.0 s (evicted v.0 s)
          (record { max_fragments_per_group = refl; max_pending_groups = refl; timeout = refl })
          refl refl refl c u,
      ground (arith, length-remove v.0 s.groups),
    )

-- What an eviction did: the victim was in the table, and no group there has an earlier last
-- progress; exactly its entry is gone, and it is counted.
pub record Evicted (s : Assembler) : Type 0 where
  pub victim : AssemblyKey
  pub group : AssemblyGroup
  pub runs : evict_capacity_victim s ≡ (ok victim, evicted victim s)
  pub stored : lookup victim s.groups ≡ some group
  pub oldest_first :
      (k : AssemblyKey) (g : AssemblyGroup)
      → lookup k s.groups ≡ some g
      → group.last_progress_at ≤ g.last_progress_at
  pub one_less : length s.groups ≡ suc (length (evicted victim s).groups)
  pub others_stay :
      (k : AssemblyKey) → k ≢ victim → lookup k (evicted victim s).groups ≡ lookup k s.groups

-- On a table that is not empty and has no key twice, `_evict_capacity_victim` does not raise: it
-- removes and counts one group, one of those without progress for the longest time, returns its key,
-- and leaves every other group.
pub evict_capacity_victim-Evicted :
    (s : Assembler) → Distinct s.groups → 1 ≤ length s.groups → Evicted s
evict_capacity_victim-Evicted s u some_left = elim (Option-cases (oldest s.groups)) [
  | inl no_victim ↦ absurd (omega (arith, some_left, oldest-none s.groups no_victim))
  | inr (v, e) ↦
      let (runs, _, len) = evict_some s v u e in
      record {
        victim = v.0;
        group = v.1;
        runs = runs;
        stored = oldest-lookup s.groups v u e;
        oldest_first = λ k g q. oldest-le s.groups v k g e q;
        one_less = len;
        others_stay = λ k other. ground (arith, lookup-remove v.0 k s.groups, key_beq_iff v.0 k);
      }
]

-- The table is within its limit, and the limit is at least 1.
pub record WithinLimit (s : Assembler) : Type 0 where
  pub fits : (n : ℕ) → s.max_pending_groups ≡ some n → (1 ≤ n) × (length s.groups ≤ n)

pub record Roomy (now : ℕ) (s : Assembler) : Type 0 where
  pub discarded : List AssemblyKey
  pub cleaned : Bool
  pub after : Assembler
  pub runs : make_room now s ≡ (ok (discarded, cleaned), after)
  pub discards : Discards discarded s after
  pub room : reaches after.max_pending_groups (length after.groups) ≡ false

reaches-some : (o : Option ℕ) (n : ℕ) → reaches o n ≡ true → (m : ℕ) × (o ≡ some m) × (m ≤ n)
reaches-some none n h = absurd (ground arith)
reaches-some (some m) n h = (m, refl, ground arith)

evict_room :
    (now : ℕ) (s : Assembler)
    → Distinct s.groups
    → WithinLimit s
    → reaches s.max_pending_groups (length s.groups) ≡ true
    → reaches s.max_pending_groups (length (cleaned_up now s).groups) ≡ true
    → Roomy now s
unfolding make_room
evict_room now s u w full still =
    let (n, e, le) = reaches-some s.max_pending_groups (length (cleaned_up now s).groups) still in
    let t = cleaned_up now s in
    let d = Discards-cleaned_up now s u in
    elim (Option-cases (oldest t.groups)) [
      | inl none_left ↦ absurd (omega (arith, le, oldest-none t.groups none_left, w.fits n e))
      | inr (v, q) ↦
          let (runs, one, len) = evict_some t v d.distinct q in
          record {
            discarded = expired_keys now s ++ v.0 ∷ [];
            cleaned = true;
            after = evicted v.0 t;
            runs = rw (full, cleanup_expired_lem now s u, still, runs) refl;
            discards = Discards-append d one;
            room =
                rw e (lt→leb-false n (length (evicted v.0 t).groups) (omega (arith, w.fits n e)));
          }
    ]

pub make_room-Roomy : (now : ℕ) (s : Assembler) → Distinct s.groups → WithinLimit s → Roomy now s
unfolding make_room
make_room-Roomy now s u w = elim (Bool-cases (reaches s.max_pending_groups (length s.groups))) [
  | inl full ↦ elim (Bool-cases (reaches s.max_pending_groups (length (cleaned_up now s).groups))) [
    | inl still ↦ evict_room now s u w full still
    | inr roomy ↦ record {
      discarded = expired_keys now s;
      cleaned = true;
      after = cleaned_up now s;
      runs = rw (full, cleanup_expired_lem now s u, roomy) refl;
      discards = Discards-cleaned_up now s u;
      room = roomy;
    }
  ]
  | inr roomy ↦ record {
    discarded = [];
    cleaned = false;
    after = s;
    runs = rw roomy refl;
    discards = Discards-nil s u;
    room = roomy;
  }
]
