-- ===== src/Processor/Consistent.antt =====
-- core/python_data_plane.py: sentences and frames, on a processor in order.
use aismixer.Prelude.{
  ℕ, ◌<◌, true, false, Option, none, some, List, [], ◌∷◌, ◌≡◌, ◌≢◌, inl, inr, refl, arith, Text, ok,
  Exec, Bool-cases, All, nat_eq, text_eq, ◌++◌, is_some, Result, err, Error, value_error,
}
use aismixer.Prelude.Dict.{contains}
use aismixer.Assembler.{AssemblyKey, key_eq, AssemblyOutcome}
use aismixer.Assembler.Invariant.{feed-Feeds, counted-IsValid}
use aismixer.Assembler.Invariant as Invariant
use aismixer.Dedup.{cache_key_eq}
use aismixer.Dedup.Sync.{IsSynced}
use aismixer.SourceState.Associated as Associated
use aismixer.SourceState.Associated.{touch_s-IsValid}
use aismixer.Processor.{
  emission_of, lines_eq, ParsedSentence, ParsedTagMetadata, ProcessingConfig, Processor, is_emitted,
  correlate, completed_key, TextLibrary, FrameSource, DeduplicationMode, Readings, consume, emit,
  process_sentence, process_sentences,
}
use aismixer.Processor.Correlated.{has_context, IsContexts, correlate-IsContexts}
use aismixer.Processor.Tracked.{IsTracked, correlate-IsTracked, consume-IsContexts, consume-left}
use aismixer.Processor.Parsed.{IsParsed, feed_parsed_outcome-FedParsed}
use aismixer.Processor.Checked.{check_unique-Checked}
use aismixer.Processor.Formatted.{emit_lines-Formatted, Result-cases}

-- Every component is valid.
pub record IsValid (s : Processor) : Type 0 where
  pub assembler : Invariant.IsValid s.assembler
  pub timeout : 0 < s.assembler.timeout
  pub deduplicator : IsSynced s.deduplicator
  pub source_state : Associated.IsValid s.source_state
  pub contexts : IsContexts s.contexts

-- And every key with metadata has a group in the assembler.
pub record IsConsistent (s : Processor) : Type 0 where
  pub valid : IsValid s
  pub tracked : IsTracked s.contexts s.assembler

-- What a run leaves: valid components, and metadata without a group for one key at most, which
-- there is only if a line could not be encoded.
pub record Processed (lib : TextLibrary) {A : Type 0} (run : Exec Processor A) (s : Processor)
    : Type 0 where
  pub result : Result A
  pub after : Processor
  pub runs : run s ≡ (result, after)
  pub valid : IsValid after
  pub stray : Option AssemblyKey
  pub tracked :
      (k : AssemblyKey)
      → stray ≢ some k
      → has_context k after.contexts ≡ true
      → contains k after.assembler.groups ≡ true
  pub returned : (outputs : A) → result ≡ ok outputs → stray ≡ none
  pub raises : (e : Error) → result ≡ err e → e ≡ value_error
  pub encodable :
      ((v : Text) → is_some (lib.encode v) ≡ true) → (outputs : A) × (result ≡ ok outputs)

not_completed :
    (r : AssemblyOutcome) (k : AssemblyKey) → is_emitted r.status ≡ false → completed_key r ≢ some k
not_completed r k waits q = ground arith

module _ (lib : TextLibrary) (config : ProcessingConfig) (frame : FrameSource) where
  emit-Processed :
      (readings : Readings) (mode : DeduplicationMode) (targets : List ℕ) (tag : ParsedTagMetadata)
      (r : AssemblyOutcome) (s : Processor)
      → IsValid s
      → ((k : AssemblyKey)
          → completed_key r ≢ some k
          → has_context k s.contexts ≡ true
          → contains k s.assembler.groups ≡ true)
      → Processed lib (emit lib config frame readings mode targets tag r) s
  unfolding emit
  emit-Processed readings mode targets tag r s v live =
      let q =
        check_unique-Checked readings.dedup_now mode r.sentences targets s.deduplicator
          v.deduplicator in
      let e = emission_of config readings.fresh_gid tag r s.contexts q.result in
      let f =
        emit_lines-Formatted lib config frame readings e 0 e.lines s.source_state v.source_state in
      let key = completed_key r in
      elim (Result-cases f.result) [
        | inl (outputs, done) ↦ record {
          result = ok outputs;
          after = record s {
            deduplicator = q.after;
            source_state = f.after;
            contexts = consume key s.contexts;
          };
          runs = rw (q.runs, f.runs, done) refl;
          valid = record {
            assembler = v.assembler;
            timeout = v.timeout;
            deduplicator = q.synced;
            source_state = f.valid;
            contexts = consume-IsContexts key s.contexts v.contexts;
          };
          stray = none;
          tracked = λ k ne h.
              (let (open_key, here) = consume-left key s.contexts v.contexts k h in
                live k open_key here);
          returned = λ o p. refl;
          raises = λ x p. absurd (ground arith);
          encodable = λ all. (outputs, refl);
        }
        | inr (x, failed) ↦ record {
          result = err x;
          after = record s { deduplicator = q.after; source_state = f.after };
          runs = rw (q.runs, f.runs, failed) refl;
          valid = record {
            assembler = v.assembler;
            timeout = v.timeout;
            deduplicator = q.synced;
            source_state = f.valid;
            contexts = v.contexts;
          };
          stray = key;
          tracked = λ k ne h. live k ne h;
          returned = λ o p. absurd (ground arith);
          raises = λ y p. ground (arith, f.raises x failed);
          encodable = λ all. let (o, p) = f.encodable all in absurd (ground arith);
        }
      ]

  process_sentence-Processed :
      (readings : Readings) (mode : DeduplicationMode) (targets : List ℕ) (parsed : ParsedSentence)
      (s : Processor)
      → IsConsistent s
      → IsParsed parsed
      → Processed lib (process_sentence lib config frame readings mode targets parsed) s
  unfolding process_sentence
  process_sentence-Processed readings mode targets parsed s v checked =
      let f =
        feed_parsed_outcome-FedParsed readings.assembler_now parsed s.assembler v.valid.assembler
          v.valid.timeout checked in
      let c = correlate config parsed.tag f.result s.contexts in
      let live =
        correlate-IsTracked config parsed.tag f.result s.contexts v.valid.contexts f.accounted
          v.tracked in
      let t : Processor = record s { assembler = f.after; contexts = c } in
      let w : IsValid t = record {
        assembler = f.valid;
        timeout = rw f.accounted.timeout v.valid.timeout;
        deduplicator = v.valid.deduplicator;
        source_state = v.valid.source_state;
        contexts = correlate-IsContexts config parsed.tag f.result s.contexts v.valid.contexts;
      } in
      elim (Bool-cases (is_emitted f.result.status)) [
        | inr waits ↦ record {
          result = ok [];
          after = t;
          runs = rw (f.runs, waits) refl;
          valid = w;
          stray = none;
          tracked = λ k ne h. live k (not_completed f.result k waits) h;
          returned = λ o p. refl;
          raises = λ x p. absurd (ground arith);
          encodable = λ all. ([], refl);
        }
        | inl emitted ↦
            let e = emit-Processed readings mode targets parsed.tag f.result t w live in
            record {
              result = e.result;
              after = e.after;
              runs = rw (f.runs, emitted) e.runs;
              valid = e.valid;
              stray = e.stray;
              tracked = e.tracked;
              returned = e.returned;
              raises = e.raises;
              encodable = e.encodable;
            }
      ]

  -- From a consistent processor, the sentences of a frame, their fragments checked by the parser,
  -- are processed, in both deduplication modes and whatever the clocks return, to outputs or to a
  -- ValueError, and to outputs if every text can be encoded. The assembler, the deduplicator, the
  -- source state and the metadata tables stay valid in either case. After outputs, metadata is kept
  -- for no message but those that have a group in the assembler; after an exception, for at most one
  -- other.
  pub process_sentences-Processed :
      (mode : DeduplicationMode) (targets : List ℕ) (sentences : List (Readings × ParsedSentence))
      (s : Processor)
      → IsConsistent s
      → All (λ x. IsParsed x.1) sentences
      → Processed lib (process_sentences lib config frame mode targets sentences) s
  unfolding process_sentences
  process_sentences-Processed mode targets [] s v checked = record {
    result = ok [];
    after = s;
    runs = refl;
    valid = v.valid;
    stray = none;
    tracked = λ k ne h. v.tracked k h;
    returned = λ o p. refl;
    raises = λ x p. absurd (ground arith);
    encodable = λ all. ([], refl);
  }
  process_sentences-Processed mode targets ((readings, parsed) ∷ rest) s v checked =
      let f = process_sentence-Processed readings mode targets parsed s v checked.0 in
      elim (Result-cases f.result) [
        | inr (x, failed) ↦ record {
          result = err x;
          after = f.after;
          runs = rw (f.runs, failed) refl;
          valid = f.valid;
          stray = f.stray;
          tracked = f.tracked;
          returned = λ o p. absurd (ground arith);
          raises = λ y p. ground (arith, f.raises x failed);
          encodable = λ all. let (o, p) = f.encodable all in absurd (ground arith);
        }
        | inl (first, done) ↦
            let g =
              process_sentences-Processed mode targets rest f.after
                (record {
                  valid = f.valid;
                  tracked = λ k h. f.tracked k (λ q. ground (arith, f.returned first done)) h;
                })
                checked.1 in
            elim (Result-cases g.result) [
              | inl (others, later) ↦ record {
                result = ok (first ++ others);
                after = g.after;
                runs = rw (f.runs, done, g.runs, later) refl;
                valid = g.valid;
                stray = g.stray;
                tracked = g.tracked;
                returned = λ o p. g.returned others later;
                raises = λ x p. absurd (ground arith);
                encodable = λ all. (first ++ others, refl);
              }
              | inr (x, later) ↦ record {
                result = err x;
                after = g.after;
                runs = rw (f.runs, done, g.runs, later) refl;
                valid = g.valid;
                stray = g.stray;
                tracked = g.tracked;
                returned = λ o p. absurd (ground arith);
                raises = λ y p. ground (arith, g.raises x later);
                encodable = λ all. let (o, p) = g.encodable all in absurd (ground arith);
              }
            ]
      ]
