-- ===== src/Processor.antt =====
-- core/python_data_plane.py: `PythonDataPlaneProcessor`, one parsed sentence of a frame at a time,
-- from the assembler to the output lines and their targets.
mod State
pub mod Correlated
pub mod Tracked
pub mod Parsed
pub mod Checked
pub mod Formatted
pub mod Emptied
pub mod Consistent
pub mod Counters
mod Tests
use aismixer.Prelude.{
  ℕ, suc, ◌+◌, ◌<◌, Bool, true, false, ◌&&◌, ◌||◌, not, ltb, Option, none, some, List, [], ◌∷◌,
  ◌++◌, min, Text, Eq, text_eq, nat_eq, codes, Result, list_beq, list_beq_iff, nat_beq, member,
  if◌then◌else◌, length, Exec, pure, ◌>>=◌, ◌>>◌, is_some,
}
use aismixer.Prelude.Dict.{Dict, lookup, insert, remove}
use aismixer.Assembler.{
  AssemblyKey, key_eq, AssemblyStatus, invalid, single, limit_exceeded, pending, duplicate,
  conflict, complete, AssemblyOutcome, Assembler, outcome,
}
use aismixer.Assembler.Feed.{feed_validated_fragment}
use aismixer.Assembler.Feed as Feed
use aismixer.Dedup.{CacheKey, cache_key_eq, Deduplicator, is_unique}
use aismixer.Dedup as Dedup
use aismixer.OutputLines.{Timestamp, number, text, build_output_bytes}
use aismixer.SourcePolicy.{choose_s_value_from_candidates, given}
use aismixer.SourceState.{SourceState, touch_s}
use aismixer.SourceState as SourceState
use aismixer.Udpsec.Bytes.{decimal}
pub use aismixer.Processor.State.{
  Contexts, FrameSource, LogicalKey, ParsedFragment, ParsedGroupTag, ParsedSentence,
  ParsedTagMetadata, ProcessingConfig, Processor, TextLibrary, carries_metadata, completed_key,
  current_ingress_gid, is_complete, is_emitted, is_waiting, key_if, lines_eq, lowest, observed,
  when_set,
}
unfoldable pub use aismixer.Processor.State.{
  correlate, discard_contexts, feed_parsed_outcome, incoming_s, output_gid, seed_c, seed_gid,
  seed_s, timestamp_for_header,
}

pub data DeduplicationMode : Type 0 where
  global per_target : DeduplicationMode

-- the targets, in order, for which the message is unique
unfoldable pub unique_targets :
    (Option ℕ → ℕ) → List Text → List ℕ → Exec (Deduplicator LogicalKey) (List ℕ)
unfolding is_unique
unique_targets now logical_key [] = pure []
unique_targets now logical_key (target_id ∷ rest) = do
  unique ← is_unique (now (some target_id)) logical_key (some target_id)
  others ← unique_targets now logical_key rest
  pure (if unique then target_id ∷ others else others)

abbrev pub is_empty {ℓ} : {A : Type ℓ} → List A → Bool
is_empty [] = true
is_empty (x ∷ xs) = false

-- the eligible targets, and whether the lines are emitted; `now` is the clock at each check
unfoldable pub check_unique :
    (Option ℕ → ℕ)
    → DeduplicationMode
    → List Text
    → List ℕ
    → Exec (Deduplicator LogicalKey) (List ℕ × Bool)
unfolding is_unique unique_targets
check_unique now global logical_key targets = do
  unique ← is_unique (now none) logical_key none
  pure (targets, unique)
check_unique now per_target logical_key targets = do
  eligible ← unique_targets now logical_key targets
  pure (eligible, not (is_empty eligible))

-- What the clocks and the generator return while a sentence is processed: the source state's clock
-- and the wall clock for each line that is emitted.
pub record Readings : Type 0 where
  pub assembler_now : ℕ
  pub dedup_now : Option ℕ → ℕ
  pub fresh_gid : Text
  pub source_now : ℕ → ℕ
  pub wall_now : ℕ → ℕ

-- The lines that are formatted, and with what.
pub record Emission : Type 0 where
  pub lines : List Text
  pub total_parts : ℕ
  pub tag_single : Bool
  pub gid : Text
  pub timestamp : Option Timestamp
  pub source : Option Text
  pub target_ids : List ℕ

abbrev pub on_assembler : Exec Assembler AssemblyOutcome → Exec Processor AssemblyOutcome
on_assembler m s = let (r, a) = m s.assembler in (r, record s { assembler = a })

abbrev pub on_deduplicator : {A : Type 0} → Exec (Deduplicator LogicalKey) A → Exec Processor A
on_deduplicator m s = let (r, d) = m s.deduplicator in (r, record s { deduplicator = d })

abbrev pub consume : Option AssemblyKey → Contexts → Contexts
consume none c = c
consume (some key) c = discard_contexts (key ∷ []) c

abbrev pub emission_of :
    ProcessingConfig
    → Text
    → ParsedTagMetadata
    → AssemblyOutcome
    → Contexts
    → List ℕ × Bool
    → Emission
emission_of config fresh_gid tag r c (eligible, emit_group) =
    let key = completed_key r in
    let total_parts = length r.sentences in
    record {
      lines = if emit_group then r.sentences else [];
      total_parts = total_parts;
      tag_single = nat_beq total_parts 1 && config.always_tag_single;
      gid = output_gid config tag key c fresh_gid;
      timestamp = timestamp_for_header config tag key c;
      source = incoming_s tag.s_value key c;
      target_ids = eligible;
    }

pub record ProcessorOutput : Type 0 where
  pub message : Text
  pub target_ids : List ℕ

-- `frame.alias_for_s or incoming_s`
abbrev pub source_name : Option Text → Option Text → Option Text
source_name alias_for_s incoming = if given alias_for_s then alias_for_s else incoming

-- `f"{index + 1}-{total_parts}-{output_gid}"`
abbrev pub g_triplet_of : Emission → ℕ → Option Text
g_triplet_of e index =
    if ltb 1 e.total_parts || e.tag_single
    then some
        (decimal (index + 1) ++ (codes "-" ++ (decimal e.total_parts ++ (codes "-" ++ e.gid))))
    else none

abbrev pub on_source_state : {A : Type 0} → Exec SourceState A → Exec Processor A
on_source_state m s = let (r, t) = m s.source_state in (r, record s { source_state = t })

module _ (lib : TextLibrary) (config : ProcessingConfig) (frame : FrameSource) where
  -- One line: the source is touched, and then the line is built.
  unfoldable pub emit_line : Readings → Emission → ℕ → Text → Exec SourceState Text
  unfolding choose_s_value_from_candidates touch_s build_output_bytes
  emit_line readings e index full_line s =
      let s_value =
        choose_s_value_from_candidates lib.is_space config.station_id
          (source_name frame.alias_for_s e.source) frame.leading_s frame.remote_ip in
      (
        build_output_bytes lib.encode full_line s_value e.timestamp (nat_beq index 0)
            (g_triplet_of e index) (readings.wall_now index),
        touch_s (readings.source_now index) (some s_value) s,
      )

  -- the loop over the lines, from an index on
  unfoldable pub emit_lines :
      Readings → Emission → ℕ → List Text → Exec SourceState (List ProcessorOutput)
  unfolding emit_line
  emit_lines readings e index [] = pure []
  emit_lines readings e index (full_line ∷ rest) = do
    message ← emit_line readings e index full_line
    others ← emit_lines readings e (suc index) rest
    pure (record { message = message; target_ids = e.target_ids } ∷ others)

  -- SINGLE and COMPLETE: the decision, the lines, and then the metadata of a complete message is
  -- consumed, whether anything is emitted or not, unless a line raised.
  unfoldable pub emit :
      Readings
      → DeduplicationMode
      → List ℕ
      → ParsedTagMetadata
      → AssemblyOutcome
      → Exec Processor (List ProcessorOutput)
  unfolding timestamp_for_header output_gid incoming_s check_unique emit_lines
  emit readings mode targets tag r = do
    decision ← on_deduplicator (check_unique readings.dedup_now mode r.sentences targets)
    outputs ← λ t.
        (let e = emission_of config readings.fresh_gid tag r t.contexts decision in
          on_source_state (emit_lines readings e 0 e.lines) t)
    λ t. pure outputs (record t { contexts = consume (completed_key r) t.contexts })

  -- One sentence of the loop of `_process_impl`.
  unfoldable pub process_sentence :
      Readings → DeduplicationMode → List ℕ → ParsedSentence → Exec Processor (List ProcessorOutput)
  unfolding feed_parsed_outcome correlate emit
  process_sentence readings mode targets parsed = do
    r ← on_assembler (feed_parsed_outcome readings.assembler_now parsed)
    λ s.
        let t : Processor = record s { contexts = correlate config parsed.tag r s.contexts } in
        if is_emitted r.status then emit readings mode targets parsed.tag r t else pure [] t

  -- The sentences of a frame, in order. An exception ends the frame.
  unfoldable pub process_sentences :
      DeduplicationMode
      → List ℕ
      → List (Readings × ParsedSentence)
      → Exec Processor (List ProcessorOutput)
  unfolding process_sentence
  process_sentences mode targets [] = pure []
  process_sentences mode targets ((readings, parsed) ∷ rest) = do
    first ← process_sentence readings mode targets parsed
    others ← process_sentences mode targets rest
    pure (first ++ others)

pub record ResetReport : Type 0 where
  pub assembler_groups_discarded : ℕ
  pub dedup_entries_discarded : ℕ
  pub source_entries_discarded : ℕ
  pub multipart_s_contexts_discarded : ℕ
  pub multipart_c_contexts_discarded : ℕ
  pub multipart_gid_contexts_discarded : ℕ

-- `_reset_impl`; `now` is what the clock of the source state's map returns
unfoldable pub reset : ℕ → Processor → ResetReport × Processor
unfolding Feed.reset Dedup.reset SourceState.reset
reset now s =
    let (keys, a) = Feed.reset s.assembler in
    let (entries, d) = Dedup.reset s.deduplicator in
    let (sources, t) = SourceState.reset now s.source_state in
    let c = s.contexts in
    (
      record {
        assembler_groups_discarded = length keys;
        dedup_entries_discarded = entries;
        source_entries_discarded = sources;
        multipart_s_contexts_discarded = length c.s_ctx;
        multipart_c_contexts_discarded = length c.c_ctx;
        multipart_gid_contexts_discarded = length c.gid_ctx;
      },
      record s {
        assembler = a;
        deduplicator = d;
        source_state = t;
        contexts = record { s_ctx = []; c_ctx = []; gid_ctx = [] };
      },
    )
