-- ===== src/Processor/State.antt =====
-- core/parsed_sentence.py: what a parsed sentence holds; assembler.py: `feed_parsed_outcome`;
-- core/python_data_plane.py: the state of `PythonDataPlaneProcessor`, and its metadata tables.
use aismixer.Prelude.{
  ℕ, Bool, true, false, Option, none, some, List, [], ◌∷◌, ◌++◌, min, Text, Eq, text_eq, nat_eq,
  codes, list_beq, list_beq_iff, nat_beq, member, if◌then◌else◌, Exec, is_some,
}
use aismixer.Prelude.Dict.{Dict, lookup, insert, remove}
use aismixer.Assembler.{
  AssemblyKey, key_eq, AssemblyStatus, invalid, single, pending, duplicate, complete,
  AssemblyOutcome, Assembler, outcome,
}
use aismixer.Assembler.Feed.{feed_validated_fragment}
use aismixer.Dedup.{CacheKey, cache_key_eq, Deduplicator}
use aismixer.OutputLines.{Timestamp, number, text}
use aismixer.SourceState.{SourceState}

pub record ParsedFragment : Type 0 where
  pub declared_total : ℕ
  pub ordinal : ℕ
  pub sequential_id : Text
  pub channel : Text

pub record ParsedGroupTag : Type 0 where
  pub part : ℕ
  pub total : ℕ
  pub group_id : Text
  pub preservable_group_id : Option Text

pub record ParsedTagMetadata : Type 0 where
  pub s_value : Option Text
  pub c_text : Option Text
  pub c_value : Option ℕ
  pub g_value : Option ParsedGroupTag

-- `source_identity` is the frame's `assembler_key`, `sentence_text` the decoded sentence span.
pub record ParsedSentence : Type 0 where
  pub source_identity : Text
  pub sentence_text : Text
  pub fragment : Option ParsedFragment
  pub tag : ParsedTagMetadata

unfoldable pub feed_parsed_outcome : ℕ → ParsedSentence → Exec Assembler AssemblyOutcome
unfolding outcome feed_validated_fragment
feed_parsed_outcome now parsed = elim parsed.fragment [
  | none ↦ outcome invalid none [] []
  | some fragment ↦
      feed_validated_fragment now parsed.source_identity parsed.sentence_text
        fragment.declared_total fragment.ordinal fragment.sequential_id fragment.channel
]

-- `_ProcessingConfig`; the digits of a group ID are the generator's
pub record ProcessingConfig : Type 0 where
  pub station_id : Option Text
  pub preserve_ingress_c : Bool
  pub preserve_ingress_gid : Bool
  pub always_tag_single : Bool

-- What a frame says of its source: `parse_leading_s_value` of it, the alias and the address.
pub record FrameSource : Type 0 where
  pub leading_s : Option Text
  pub alias_for_s : Option Text
  pub remote_ip : Option Text

-- what `str.strip` takes for white space, and strict UTF-8
pub record TextLibrary : Type 0 where
  pub is_space : ℕ → Bool
  pub encode : Text → Option Text

-- the metadata of the messages that are not complete
pub record Contexts : Type 0 where
  pub s_ctx : Dict AssemblyKey Text
  pub c_ctx : Dict AssemblyKey ℕ
  pub gid_ctx : Dict AssemblyKey (List Text)

-- one `str`, or the tuple of several: a list of that many lines
instance abbrev pub lines_eq : Eq (List Text)
lines_eq = record { beq = list_beq; beq_iff = list_beq_iff }

abbrev pub LogicalKey : Type 0
LogicalKey = CacheKey ℕ (List Text)

pub record Processor : Type 0 where
  pub assembler : Assembler
  pub deduplicator : Deduplicator LogicalKey
  pub source_state : SourceState
  pub contexts : Contexts

-- `_discard_multipart_contexts`
unfoldable pub discard_contexts : List AssemblyKey → Contexts → Contexts
discard_contexts [] c = c
discard_contexts (key ∷ rest) c = discard_contexts rest (record {
  s_ctx = remove key c.s_ctx;
  c_ctx = remove key c.c_ctx;
  gid_ctx = remove key c.gid_ctx;
})

-- PENDING, DUPLICATE or COMPLETE; and the first two alone
abbrev pub carries_metadata : AssemblyStatus → Bool
carries_metadata pending = true
carries_metadata duplicate = true
carries_metadata complete = true
carries_metadata _ = false

abbrev pub is_waiting : AssemblyStatus → Bool
is_waiting pending = true
is_waiting duplicate = true
is_waiting _ = false

abbrev pub is_complete : AssemblyStatus → Bool
is_complete complete = true
is_complete _ = false

-- every other status is followed by `continue`
abbrev pub is_emitted : AssemblyStatus → Bool
is_emitted single = true
is_emitted complete = true
is_emitted _ = false

-- The key of the outcome, if the status is one of those.
abbrev pub key_if : Bool → AssemblyOutcome → Option AssemblyKey
key_if wanted outcome = if wanted then outcome.group_key else none

abbrev pub lowest : Option ℕ → ℕ → ℕ
lowest none c = c
lowest (some previous) c = min previous c

-- The conditional writes into the three tables; an optional value that is `none` writes nothing.
unfoldable pub seed_c : Option AssemblyKey → Option ℕ → Dict AssemblyKey ℕ → Dict AssemblyKey ℕ
seed_c (some key) (some c) ctx = insert key (lowest (lookup key ctx) c) ctx
seed_c _ _ ctx = ctx

abbrev pub observed : AssemblyKey → Dict AssemblyKey (List Text) → List Text
observed key ctx = elim (lookup key ctx) [ none ↦ [] | some gids ↦ gids ]

unfoldable pub seed_gid :
    Option AssemblyKey → Option Text → Dict AssemblyKey (List Text) → Dict AssemblyKey (List Text)
seed_gid (some key) (some gid) ctx =
    let previous = observed key ctx in
    insert key (if member gid previous then previous else previous ++ gid ∷ []) ctx
seed_gid _ _ ctx = ctx

unfoldable pub seed_s :
    Option AssemblyKey → Option Text → Dict AssemblyKey Text → Dict AssemblyKey Text
seed_s (some key) (some s_value) ctx = insert key s_value ctx
seed_s _ _ ctx = ctx

abbrev pub when_set {ℓ} : {A : Type ℓ} → Bool → Option A → Option A
when_set on value = if on then value else none

abbrev pub current_ingress_gid : ParsedTagMetadata → Option Text
current_ingress_gid tag = elim tag.g_value [ none ↦ none | some g ↦ g.preservable_group_id ]

-- What an outcome does to the tables: first the discarded generations go.
unfoldable pub correlate :
    ProcessingConfig → ParsedTagMetadata → AssemblyOutcome → Contexts → Contexts
unfolding discard_contexts seed_c seed_gid seed_s
correlate config tag outcome c =
    let d = discard_contexts outcome.discarded_keys c in
    let key = key_if (carries_metadata outcome.status) outcome in
    record {
      c_ctx = seed_c key (when_set config.preserve_ingress_c tag.c_value) d.c_ctx;
      gid_ctx =
          seed_gid key (when_set config.preserve_ingress_gid (current_ingress_gid tag)) d.gid_ctx;
      s_ctx =
          seed_s (key_if (is_waiting outcome.status) outcome)
            (when_set (is_some tag.g_value) tag.s_value) d.s_ctx;
    }

-- the key of a completed multipart message
abbrev pub completed_key : AssemblyOutcome → Option AssemblyKey
completed_key r = key_if (is_complete r.status) r

-- A single `c:0` stays the number 0, that of a multipart message becomes the text "0".
abbrev single_timestamp : Option ℕ → Option Timestamp
single_timestamp none = none
single_timestamp (some c) = some (number c)

abbrev multipart_timestamp : Option ℕ → Option Timestamp
multipart_timestamp none = none
multipart_timestamp (some c) = some (if nat_beq c 0 then text (codes "0") else number c)

unfoldable pub timestamp_for_header :
    ProcessingConfig → ParsedTagMetadata → Option AssemblyKey → Contexts → Option Timestamp
timestamp_for_header config tag none c =
    single_timestamp (when_set config.preserve_ingress_c tag.c_value)
timestamp_for_header config tag (some key) c =
    multipart_timestamp (when_set config.preserve_ingress_c (lookup key c.c_ctx))

-- the only one of the observed group IDs
abbrev the_only : List Text → Option Text
the_only (gid ∷ []) = some gid
the_only _ = none

abbrev or_else {ℓ} : {A : Type ℓ} → Option A → A → A
or_else none fresh = fresh
or_else (some a) fresh = a

-- `fresh` is what the generator of group IDs returns.
unfoldable pub output_gid :
    ProcessingConfig → ParsedTagMetadata → Option AssemblyKey → Contexts → Text → Text
output_gid config tag none c fresh =
    or_else (when_set config.preserve_ingress_gid (current_ingress_gid tag)) fresh
output_gid config tag (some key) c fresh =
    or_else (when_set config.preserve_ingress_gid (the_only (observed key c.gid_ctx))) fresh

-- `incoming_s or self._multipart_s_ctx.get(key)`: the empty text counts as none.
unfoldable pub incoming_s : Option Text → Option AssemblyKey → Contexts → Option Text
incoming_s value none c = value
incoming_s none (some key) c = lookup key c.s_ctx
incoming_s (some []) (some key) c = lookup key c.s_ctx
incoming_s (some (x ∷ rest)) (some key) c = some (x ∷ rest)
