-- ===== src/Assembler/Tests.antt =====
-- Runs of the assembler on small inputs, and the theorems at inputs that meet their hypotheses.
use aismixer.Prelude.{some, List, [], ◌∷◌, ◌≡◌, refl, inr, arith, codes, ok}
use aismixer.Prelude.Dict.{lookup, insert}
use aismixer.Assembler.{
  AssemblyKey, AssemblyOutcome, AssemblyGroup, OutcomeCounts, Assembler, cleanup_expired,
  expired_keys,
}
use aismixer.Assembler.Capacity.{Evicted, evict_capacity_victim-Evicted}
use aismixer.Assembler.Cleanup.{cleaned_up, cleanup_expired_lem}
use aismixer.Assembler.Feed.{feed_validated_fragment}
use aismixer.Assembler.Invariant.{IsValid, feed_key, feed_validated_fragment-IsValid}
use aismixer.Assembler.Accounting.{Accounted, feed-Accounted}
use aismixer.Assembler.Reassembly.{Arrival, Reassembled, reassemble}

abbrev zero_counts : OutcomeCounts
zero_counts = record {
  invalid_count = 0;
  single_count = 0;
  limit_exceeded_count = 0;
  pending_count = 0;
  duplicate_count = 0;
  conflict_count = 0;
  complete_count = 0;
}

abbrev empty : Assembler
empty = record {
  max_fragments_per_group = some 9;
  max_pending_groups = some 2;
  timeout = 10;
  groups = [];
  outcome_counts = zero_counts;
  expired = 0;
  capacity_evicted = 0;
  reset_discarded = 0;
  resets = 0;
  peak_groups = 0;
  peak_fragments = 0;
}

abbrev key : AssemblyKey
key = record {
  source_identity = codes "udp:a";
  sequential_id = codes "3";
  channel = codes "A";
  declared_total = 2;
}

abbrev second_first : List Arrival
second_first =
    record { at = 5; ordinal = 2; sentence = codes "two" }
    ∷ record { at = 7; ordinal = 1; sentence = codes "one" }
    ∷ []

empty-IsValid : IsValid empty
unfolding lookup
empty-IsValid = record {
  table = record {
    distinct = tt;
    within = record { fits = λ n q. ground arith };
    partial = λ k g q. absurd (ground arith);
    started = λ k g q. absurd (ground arith);
    small = λ k c. absurd (ground arith);
  };
  peak_groups = omega arith;
  peak_fragments = omega arith;
}

abbrev stale_group : AssemblyGroup
stale_group = record { fragments_by_ordinal = (1, codes "one") ∷ []; last_progress_at = 3 }

abbrev holding : Assembler
holding = record empty { groups = (key, stale_group) ∷ [] }

reassemble_example : Reassembled key second_first [] empty
unfolding lookup insert
reassemble_example =
    reassemble key (omega arith) second_first 0 [] empty empty-IsValid (inr (refl, refl))
      (omega arith) refl (omega arith, (omega arith, tt))
      (omega arith, omega arith, refl, (omega arith, omega arith, refl, tt)) refl (omega arith)

feed_validated_fragment-IsValid_example :
    (r : AssemblyOutcome) × (t : Assembler) × (feed_validated_fragment 5
        (codes "udp:a")
        (codes "two")
        2
        2
        (codes "3")
        (codes "A")
        empty
      ≡ (ok r, t))
    × IsValid t
feed_validated_fragment-IsValid_example =
    feed_validated_fragment-IsValid 5 (codes "udp:a") (codes "two") 2 2 (codes "3") (codes "A")
      empty empty-IsValid (omega arith) (omega arith)

feed-Accounted_example :
    (r : AssemblyOutcome) × (t : Assembler) × (feed_key 5 key 2 (codes "two") empty ≡ (ok r, t))
    × Accounted empty r t
feed-Accounted_example =
    feed-Accounted 5 key 2 (codes "two") empty empty-IsValid (omega arith) (omega arith)
      (omega arith)

cleanup_expired_lem_example :
    cleanup_expired 13 holding ≡ (ok (expired_keys 13 holding), cleaned_up 13 holding)
unfolding lookup
cleanup_expired_lem_example = cleanup_expired_lem 13 holding (refl, tt)

-- the second group stopped before the first one
abbrev two_groups : Assembler
two_groups = record holding {
  groups =
      (record key { sequential_id = codes "8" }, record stale_group { last_progress_at = 9 })
      ∷ (key, stale_group)
      ∷ [];
}

evict_capacity_victim-Evicted_example : Evicted two_groups
unfolding lookup
evict_capacity_victim-Evicted_example =
    evict_capacity_victim-Evicted two_groups (refl, (refl, tt)) (omega arith)
