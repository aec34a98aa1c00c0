-- ===== src/Processor/Tests.antt =====
-- Runs of the processor on small inputs, and the theorems at inputs that meet their hypotheses.
use aismixer.Prelude.{
  ℕ, true, false, Option, none, some, List, [], ◌∷◌, ◌≡◌, refl, arith, codes, ok, err, value_error,
  length, Text, Bool, ◌++◌, ◌&&◌, ◌||◌, leb, nat_beq, if◌then◌else◌, nat_eq, text_eq,
}
use aismixer.Prelude.Dict.{lookup, insert, remove}
use aismixer.Prelude.Order.{sorted}
use aismixer.Prelude.Filter.{select_keys}
use aismixer.Assembler.{AssemblyKey, key_eq, expire_groups}
use aismixer.Dedup.{cache_key_eq}
use aismixer.Processor.{
  lines_eq, ParsedGroupTag, ParsedSentence, ProcessingConfig, Processor, per_target, Readings,
  TextLibrary, FrameSource, process_sentences, reset,
}
use aismixer.Processor.Counters.{Metered, process, IsBalanced, process-IsBalanced}
use aismixer.Processor.Consistent.{IsValid, IsConsistent, Processed, process_sentences-Processed}
use aismixer.Processor.Emptied.{Emptied, reset-Emptied}
use aismixer.OutputLines.{number, build_output_bytes}
use aismixer.SourcePolicy.{choose_s_value_from_candidates}
use aismixer.SourceState.{touch_s}
use aismixer.TtlMap.{TtlMap}
use aismixer.Udpsec.Bytes.{decimal}

abbrev sources : TtlMap Text
sources = record {
  ttl_ns = 900;
  max_entries = 4;
  sweep_every_ns = 1;
  ops_per_sweep = 8;
  d = [];
  q = [];
  last_sweep_ns = 0;
  ops = 0;
}

abbrev idle : Processor
idle = record {
  assembler = record {
    max_fragments_per_group = some 9;
    max_pending_groups = some 2;
    timeout = 10;
    groups = [];
    outcome_counts = record {
      invalid_count = 0;
      single_count = 0;
      limit_exceeded_count = 0;
      pending_count = 0;
      duplicate_count = 0;
      conflict_count = 0;
      complete_count = 0;
    };
    expired = 0;
    capacity_evicted = 0;
    reset_discarded = 0;
    resets = 0;
    peak_groups = 0;
    peak_fragments = 0;
  };
  deduplicator = record {
    ttl = 30;
    max_entries = some 4;
    cache = [];
    expiry_index = [];
    next_id = 0;
    accepted = 0;
    duplicates = 0;
    expired = 0;
    capacity_evicted = 0;
    resets = 0;
    peak_entries = 0;
  };
  source_state = record { s_cache = sources; per_s_state = [] };
  contexts = record { s_ctx = []; c_ctx = []; gid_ctx = [] };
}

idle-IsValid : IsValid idle
unfolding lookup
idle-IsValid = record {
  assembler = record {
    table = record {
      distinct = tt;
      within = record { fits = λ n q. ground arith };
      partial = λ k g q. absurd (ground arith);
      started = λ k g q. absurd (ground arith);
      small = λ k q. absurd (ground arith);
    };
    peak_groups = omega arith;
    peak_fragments = omega arith;
  };
  timeout = omega arith;
  deduplicator = record {
    synced = refl;
    distinct = tt;
    limit = λ n q. ground arith;
    peak = omega arith;
  };
  source_state = record {
    map = record {
      distinct = tt;
      queued_live = λ k x p. absurd (ground arith);
      bounded = omega arith;
    };
    distinct = tt;
    associated = λ k c. absurd (ground arith);
  };
  contexts = record { distinct_s = tt; distinct_c = tt; distinct_gid = tt };
}

idle-IsConsistent : IsConsistent idle
unfolding lookup
idle-IsConsistent = record { valid = idle-IsValid; tracked = λ k h. absurd (ground arith) }

abbrev config : ProcessingConfig
config = record {
  station_id = none;
  preserve_ingress_c = true;
  preserve_ingress_gid = true;
  always_tag_single = false;
}

abbrev readings : Readings
readings = record {
  assembler_now = 5;
  dedup_now = λ scope. 6;
  fresh_gid = codes "77";
  source_now = λ i. 7;
  wall_now = λ i. 8;
}

-- The two parts of one message; only the first has a group tag, of the group 42.
abbrev part_of : ℕ → Option ParsedGroupTag → ParsedSentence
part_of ordinal g = record {
  source_identity = codes "udp:a";
  sentence_text = ordinal ∷ [];
  fragment = some (record {
    declared_total = 2;
    ordinal = ordinal;
    sequential_id = codes "3";
    channel = codes "A";
  });
  tag = record { s_value = some (codes "s"); c_text = none; c_value = some ordinal; g_value = g };
}

abbrev group_42 : ParsedGroupTag
group_42 = record {
  part = 1;
  total = 2;
  group_id = codes "42";
  preservable_group_id = some (codes "42");
}

abbrev sentences : List (Readings × ParsedSentence)
sentences = (readings, part_of 2 (some group_42)) ∷ (readings, part_of 1 none) ∷ []

abbrev frame : FrameSource
frame = record { leading_s = none; alias_for_s = some (codes "al"); remote_ip = none }

-- an encoder that refuses surrogates, and blanks are spaces
abbrev has_surrogate : Text → Bool
has_surrogate [] = false
has_surrogate (c ∷ v) = (leb 55296 c && leb c 57343) || has_surrogate v

abbrev lib : TextLibrary
lib = record {
  is_space = λ c. nat_beq c 32;
  encode = λ v. if has_surrogate v then none else some v;
}

process_sentences-Processed_example :
    Processed lib (process_sentences lib config frame per_target (8 ∷ 9 ∷ []) sentences) idle
process_sentences-Processed_example =
    process_sentences-Processed lib config frame per_target (8 ∷ 9 ∷ []) sentences idle
      idle-IsConsistent ((λ f q. ground arith), ((λ f q. ground arith), tt))

program : Unit {0}
unfolding process_sentences lookup insert remove expire_groups sorted select_keys build_output_bytes
    choose_s_value_from_candidates decimal touch_s
program = tt

emitted_once :
    (process_sentences lib config frame per_target (8 ∷ 9 ∷ []) sentences idle).0
    ≡ ok (
        record { message = 1 ∷ 13 ∷ 10 ∷ []; target_ids = 8 ∷ 9 ∷ [] }
        ∷ record { message = 2 ∷ 13 ∷ 10 ∷ []; target_ids = 8 ∷ 9 ∷ [] }
        ∷ [])
unfolding program
emitted_once = refl

-- The header, its checksum, and the clock's time in place of 0.
headed :
    build_output_bytes lib.encode
      (codes "!,1,,A")
      (codes "al")
      (some (number 0))
      true
      (some (codes "1-2-77"))
      12
    ≡ ok (codes "\\c:12,s:al,g:1-2-77*40\\!,1,,A" ++ 13 ∷ 10 ∷ [])
unfolding program
headed = refl

-- A surrogate ends the call, and the metadata of the complete message stays.
abbrev surrogate : List (Readings × ParsedSentence)
surrogate =
    (readings, part_of 2 (some group_42))
    ∷ (readings, record (part_of 1 none) { sentence_text = 55297 ∷ [] })
    ∷ []

surrogate_raises :
    (process_sentences lib config frame per_target (8 ∷ []) surrogate idle).0 ≡ err value_error
unfolding program
surrogate_raises = refl

surrogate_leaves_metadata :
    length (process_sentences lib config frame per_target (8 ∷ []) surrogate idle).1.contexts.c_ctx
    ≡ 1
unfolding program
surrogate_leaves_metadata = refl

abbrev metered : Metered
metered = record {
  processor = idle;
  counters = record {
    process_calls = 3;
    process_completed = 2;
    process_failed = 1;
    process_in_flight = 0;
    outputless_calls = 1;
    output_batches = 1;
    output_messages = 2;
    reset_calls = 1;
    reset_completed = 1;
    reset_failed = 0;
    reset_in_flight = 0;
  };
}

process-IsBalanced_example :
    IsBalanced (process lib config frame per_target (8 ∷ []) sentences metered).1.counters
    × ((process lib config frame per_target (8 ∷ []) sentences metered).1.counters.process_calls
        ≡ 4)
process-IsBalanced_example =
    process-IsBalanced lib config frame per_target (8 ∷ []) sentences metered (record {
      idle = refl;
      calls = refl;
      completed = refl;
      messages = omega arith;
      reset_idle = refl;
      reset_all = refl;
    })

-- What an exception can leave: metadata of two messages without a group.
abbrev key_of : ℕ → AssemblyKey
key_of n = record {
  source_identity = codes "udp:a";
  sequential_id = n ∷ [];
  channel = codes "A";
  declared_total = 2;
}

abbrev left_over : Processor
left_over = record idle {
  contexts = record {
    s_ctx = (key_of 3, codes "s") ∷ [];
    c_ctx = (key_of 3, 12) ∷ (key_of 4, 13) ∷ [];
    gid_ctx = [];
  };
}

left_over-IsValid : IsValid left_over
unfolding lookup
left_over-IsValid = record {
  assembler = idle-IsValid.assembler;
  timeout = idle-IsValid.timeout;
  deduplicator = idle-IsValid.deduplicator;
  source_state = idle-IsValid.source_state;
  contexts = record { distinct_s = (refl, tt); distinct_c = (refl, (refl, tt)); distinct_gid = tt };
}

reset-Emptied_example : Emptied left_over (reset 9 left_over).0 (reset 9 left_over).1
reset-Emptied_example = reset-Emptied 9 left_over left_over-IsValid
