-- ===== src/Assembler/Invariant.antt =====
-- assembler.py: the invariant of `AIVDMAssembler`.
use mathlib.Core.Path.{subst₂}
use aismixer.Prelude.{
  ℕ, suc, ◌≤◌, ◌<◌, true, false, none, some, List, [], ◌∷◌, ◌≡◌, ◌≢◌, refl, arith, ◌==◌, nat_eq,
  length, Text, ok, Exec, ◌>>=◌, ◌⊎◌, Bool-cases, inl, inr,
}
use aismixer.Prelude.Dict.{
  lookup, contains, Distinct, lookup-insert, Distinct-insert, length-insert, insert-insert,
  remove-insert,
}
use aismixer.Assembler.{
  AssemblyKey, key_eq, key_beq_iff, AssemblyStatus, single, limit_exceeded, duplicate, conflict,
  pending, complete, AssemblyOutcome, AssemblyGroup, received_count, Assembler, outcome, reaches,
  exceeds, sum_received,
}
use aismixer.Assembler.Capacity.{WithinLimit}
use aismixer.Assembler.Discards.{Discards, Discards-one}
use aismixer.Assembler.Opening.{Opens, found, fresh, Opening, with_group, open_group-Opening}
use aismixer.Assembler.Ordinals.{Ordinals-insert}
use aismixer.Assembler.Fed.{
  Partial, Fed, repeated, conflicting, extending, completing, Feeding, feed_opened, counted, peaked,
  without_group,
}
use aismixer.Assembler.Feed.{Opened, open_group, extended, add_fragment, feed_validated_fragment}

-- The table of groups is well formed.
pub record IsTable (s : Assembler) : Type 0 where
  -- no key twice
  pub distinct : Distinct s.groups
  -- no more groups than `max_pending_groups`, which is at least 1
  pub within : WithinLimit s
  -- every group holds unique ordinals in range, at least one and fewer than declared
  pub partial : (k : AssemblyKey) (g : AssemblyGroup) → lookup k s.groups ≡ some g → Partial k g
  pub started :
      (k : AssemblyKey) (g : AssemblyGroup) → lookup k s.groups ≡ some g → 1 ≤ received_count g
  -- no group is declared larger than `max_fragments_per_group`
  pub small :
      (k : AssemblyKey)
      → contains k s.groups ≡ true
      → exceeds s.max_fragments_per_group k.declared_total ≡ false

-- What holds between two calls: the peaks bound the table too.
pub record IsValid (s : Assembler) : Type 0 where
  pub table : IsTable s
  pub peak_groups : length s.groups ≤ s.peak_groups
  pub peak_fragments : sum_received s.groups ≤ s.peak_fragments

Discards-IsTable : {d : List AssemblyKey} {s t : Assembler} → Discards d s t → IsTable s → IsTable t
Discards-IsTable {d} {s} {t} h v = record {
  distinct = h.distinct;
  within = record {
    fits = λ n q. ground (arith, v.within.fits n, h.settings.max_pending_groups, h.fewer);
  };
  partial = λ k g q. v.partial k g (ground (arith, h.kept k));
  started = λ k g q. v.started k g (ground (arith, h.kept k));
  small = λ k c. ground (arith, h.kept k, v.small k, h.settings.max_fragments_per_group);
}

-- Discarding groups keeps the invariant.
pub Discards-IsValid :
    {d : List AssemblyKey} {s t : Assembler} → Discards d s t → IsValid s → IsValid t
Discards-IsValid {d} {s} {t} h v = record {
  table = Discards-IsTable h v.table;
  peak_groups = ground (arith, h.fewer, v.peak_groups, h.peak_groups);
  peak_fragments = ground (arith, h.fewer_fragments, v.peak_fragments, h.peak_fragments);
}

-- The invariant reads the settings, the groups and the peaks alone.
pub counted-IsValid :
    {s : Assembler} (status : AssemblyStatus) → IsValid s → IsValid (counted status s)
counted-IsValid {s} status v = record {
  table = record {
    distinct = v.table.distinct;
    within = record { fits = v.table.within.fits };
    partial = v.table.partial;
    started = v.table.started;
    small = v.table.small;
  };
  peak_groups = v.peak_groups;
  peak_fragments = v.peak_fragments;
}

peaked-IsValid : {s : Assembler} → IsTable s → IsValid (peaked s)
peaked-IsValid {s} v = record {
  table = record {
    distinct = v.distinct;
    within = record { fits = v.within.fits };
    partial = v.partial;
    started = v.started;
    small = v.small;
  };
  peak_groups = omega arith;
  peak_fragments = omega arith;
}

module _ (now : ℕ) (key : AssemblyKey) (ordinal : ℕ) (line : Text) (s : Assembler) (v : IsValid s)
    (lo : 1 ≤ ordinal) (hi : ordinal ≤ key.declared_total)
    (limit : exceeds s.max_fragments_per_group key.declared_total ≡ false) where
  -- one more group in a table with room for it
  insert-IsTable :
      (w : Assembler) (g : AssemblyGroup)
      → IsTable w
      → w.max_fragments_per_group ≡ s.max_fragments_per_group
      → (contains key w.groups ≡ true) ⊎ (reaches w.max_pending_groups (length w.groups) ≡ false)
      → Partial key g
      → 1 ≤ received_count g
      → IsTable (with_group key g w)
  insert-IsTable w g t e room part pos = record {
    distinct = Distinct-insert key g w.groups t.distinct;
    within = record {
      fits = λ n q. ground (arith, t.within.fits n q, length-insert key g w.groups, room);
    };
    partial = λ k f q. elim (Bool-cases (key == k)) [
      | inl same ↦
          subst₂ Partial ((key_beq_iff key k).0 same)
            (ground (arith, lookup-insert key k g w.groups)) part
      | inr other ↦ t.partial k f (ground (arith, lookup-insert key k g w.groups))
    ];
    started = λ k f q. ground (arith, lookup-insert key k g w.groups, t.started k f);
    small = λ k c. ground (arith, lookup-insert key k g w.groups, t.small k, key_beq_iff key k);
  }

  grown-Partial :
      (g : AssemblyGroup)
      → Partial key g
      → lookup ordinal g.fragments_by_ordinal ≡ none
      → suc (received_count g) < key.declared_total
      → Partial key (extended now ordinal line g)
  grown-Partial g p absent less = record {
    ordinals =
        Ordinals-insert key.declared_total ordinal line g.fragments_by_ordinal lo hi p.ordinals;
    unfinished = ground (arith, length-insert ordinal line g.fragments_by_ordinal);
  }

  grown-IsTable :
      (o : Opened) (m : Assembler)
      → Opens now key s o m
      → Partial key o.group
      → lookup ordinal o.group.fragments_by_ordinal ≡ none
      → suc (received_count o.group) < key.declared_total
      → IsTable (with_group key (extended now ordinal line o.group) m)
  grown-IsTable o m (found g e live eo em) part absent less = rw em (
      insert-IsTable s (extended now ordinal line o.group) v.table refl (inl (rw e refl))
        (grown-Partial o.group part absent less)
        (ground (arith, length-insert ordinal line o.group.fragments_by_ordinal)))
  grown-IsTable o m (fresh d c w h old gone room eo em) part absent less =
      rw (em, insert-insert)
        (insert-IsTable w (extended now ordinal line o.group) (Discards-IsTable h v.table)
          h.settings.max_fragments_per_group (inr room) (grown-Partial o.group part absent less)
          (ground (arith, length-insert ordinal line o.group.fragments_by_ordinal)))

  -- A completed group was there: it goes, and nothing else does.
  pub completing-Discards :
      (o : Opened) (m : Assembler)
      → Opens now key s o m
      → key.declared_total ≢ 1
      → suc (received_count o.group) ≡ key.declared_total
      → Discards
          (key ∷ [])
          s
          (without_group key (with_group key (extended now ordinal line o.group) m))
        × (o.discarded ≡ [])
  completing-Discards o m (found g e live eo em) many full = (
    Discards-one key s _
        (rw em
          (record { max_fragments_per_group = refl; max_pending_groups = refl; timeout = refl }))
        (rw (em, remove-insert) refl) (rw em refl) (rw em refl) (rw e refl) v.table.distinct,
    rw eo refl,
  )
  completing-Discards o m (fresh d c w h old gone room eo em) many full =
      let zero_there : received_count o.group ≡ 0 = rw eo refl in
      absurd (many (omega (arith, full, zero_there)))

  pub Fed-IsValid :
      {r : AssemblyOutcome} {t : Assembler}
      → key.declared_total ≢ 1
      → Fed now key ordinal line s r t
      → IsValid t
  Fed-IsValid many (repeated g d m e q h gone er et) =
      rw et (counted-IsValid duplicate (Discards-IsValid h v))
  Fed-IsValid many (conflicting g stored d m e q ne h gone er et) =
      rw et (counted-IsValid conflict (Discards-IsValid h v))
  Fed-IsValid many (extending o m d q opens part absent less h here er et) = rw et (
      counted-IsValid pending
        (peaked-IsValid (Discards-IsTable h (grown-IsTable o m opens part absent less))))
  Fed-IsValid many (completing o m lines opens part full absent len ord er et) =
      rw et
        (counted-IsValid complete (Discards-IsValid (completing-Discards o m opens many full).0 v))

  -- The multipart branch of `_feed_validated_fragment` ends in one of the ways of `Fed`.
  pub feed_multipart :
      Feeding now key ordinal line s
        (do opened ← open_group now key; add_fragment now key ordinal line opened)
        s
  feed_multipart =
      let w : Opening now key s = open_group-Opening now key s v.table.distinct v.table.within in
      let f =
        feed_opened now key s v.table.distinct ordinal line w.opened w.after w.opens lo hi
          (v.table.partial key) in
      record { result = f.result; after = f.after; runs = rw (w.runs, f.runs) refl; fed = f.fed }

-- The key of the fragment.
abbrev pub key_of : Text → Text → Text → ℕ → AssemblyKey
key_of source_identity sequential_id channel declared_total = record {
  source_identity = source_identity;
  sequential_id = sequential_id;
  channel = channel;
  declared_total = declared_total;
}

-- An outcome that names no group.
abbrev pub plain : AssemblyStatus → List Text → AssemblyOutcome
plain status sentences = record {
  status = status;
  group_key = none;
  sentences = sentences;
  discarded_keys = [];
}

-- How `_feed_validated_fragment` ends, on each of its branches.
pub data Ended (now : ℕ) (key : AssemblyKey) (ordinal : ℕ) (line : Text) (s : Assembler)
    (r : AssemblyOutcome) (t : Assembler) : Type 0 where
  alone :
      key.declared_total ≡ 1
      → r ≡ plain single (line ∷ [])
      → t ≡ counted single s
      → Ended now key ordinal line s r t
  too_large :
      exceeds s.max_fragments_per_group key.declared_total ≡ true
      → r ≡ plain limit_exceeded []
      → t ≡ counted limit_exceeded s
      → Ended now key ordinal line s r t
  multipart :
      key.declared_total ≢ 1
      → exceeds s.max_fragments_per_group key.declared_total ≡ false
      → Fed now key ordinal line s r t
      → Ended now key ordinal line s r t

abbrev pub feed_key : ℕ → AssemblyKey → ℕ → Text → Exec Assembler AssemblyOutcome
feed_key now key ordinal line =
    feed_validated_fragment now key.source_identity line key.declared_total ordinal
      key.sequential_id key.channel

pub record Feeds (now : ℕ) (key : AssemblyKey) (ordinal : ℕ) (line : Text) (s : Assembler)
    : Type 0 where
  pub result : AssemblyOutcome
  pub after : Assembler
  pub runs : feed_key now key ordinal line s ≡ (ok result, after)
  pub valid : IsValid after
  pub ended : Ended now key ordinal line s result after

pub feed-Feeds :
    (now : ℕ) (key : AssemblyKey) (ordinal : ℕ) (line : Text) (s : Assembler)
    → IsValid s
    → 1 ≤ ordinal
    → ordinal ≤ key.declared_total
    → Feeds now key ordinal line s
unfolding feed_validated_fragment outcome
feed-Feeds now key ordinal line s v lo hi = elim (Bool-cases (key.declared_total == 1)) [
  | inl one ↦ record {
    result = plain single (line ∷ []);
    after = counted single s;
    runs = rw one refl;
    valid = counted-IsValid single v;
    ended = alone (ground arith) refl refl;
  }
  | inr many ↦ elim (Bool-cases (exceeds s.max_fragments_per_group key.declared_total)) [
    | inl over ↦ record {
      result = plain limit_exceeded [];
      after = counted limit_exceeded s;
      runs = rw (many, over) refl;
      valid = counted-IsValid limit_exceeded v;
      ended = too_large over refl refl;
    }
    | inr fits ↦
        let f = feed_multipart now key ordinal line s v lo hi fits in
        let ne : key.declared_total ≢ 1 = λ e. ground arith in
        record {
          result = f.result;
          after = f.after;
          runs = rw (many, fits, f.runs) refl;
          valid = Fed-IsValid now key ordinal line s v lo hi fits ne f.fed;
          ended = multipart ne fits f.fed;
        }
  ]
]

-- From a valid state, whatever the validated fragment, `_feed_validated_fragment` returns an
-- outcome (it raises no exception) and leaves a valid state: unique keys, a table within
-- `max_pending_groups`, unfinished groups with unique ordinals in range, and peaks that bound the
-- table.
pub feed_validated_fragment-IsValid :
    (now : ℕ) (source sentence : Text) (total ordinal : ℕ) (id channel : Text) (s : Assembler)
    → IsValid s
    → 1 ≤ ordinal
    → ordinal ≤ total
    → (r : AssemblyOutcome) × (t : Assembler) × (feed_validated_fragment now source sentence total
          ordinal id channel s
        ≡ (ok r, t))
      × IsValid t
feed_validated_fragment-IsValid now source sentence total ordinal id channel s v lo hi =
    let f = feed-Feeds now (key_of source id channel total) ordinal sentence s v lo hi in
    (f.result, f.after, f.runs, f.valid)
