-- ===== src/Processor/Emptied.antt =====
-- core/python_data_plane.py: `reset`.
use aismixer.Prelude.{ℕ, [], ◌≡◌, refl, ◌∙◌, arith, length, nat_eq, text_eq}
use aismixer.Prelude.Dict.{keys, length-keys, lookup}
use aismixer.Prelude.Order.{length-sorted}
use aismixer.Assembler.Feed as Feed
use aismixer.Dedup as Dedup
use aismixer.Assembler.{key_ltb, key_eq}
use aismixer.Dedup.{cache_key_eq, Deduplicator, is_unique, cache_key}
use aismixer.SourceState.Associated as Associated
use aismixer.SourceState.Associated.{touch_s-IsValid}
use aismixer.Processor.{lines_eq, Processor, ResetReport, reset}
use aismixer.Processor.Consistent.{IsValid, IsConsistent}

-- What `reset` leaves and reports: every table is empty, and the report has the sizes before.
pub record Emptied (s : Processor) (report : ResetReport) (t : Processor) : Type 0 where
  pub consistent : IsConsistent t
  pub no_groups : t.assembler.groups ≡ []
  pub no_entries : t.deduplicator.cache ≡ []
  pub no_sources : t.source_state.s_cache.d ≡ []
  pub no_source_states : t.source_state.per_s_state ≡ []
  pub no_contexts : t.contexts ≡ record { s_ctx = []; c_ctx = []; gid_ctx = [] }
  pub groups : report.assembler_groups_discarded ≡ length s.assembler.groups
  pub entries : report.dedup_entries_discarded ≡ length s.deduplicator.cache
  pub sources : report.source_entries_discarded ≡ length s.source_state.s_cache.d
  pub s_contexts : report.multipart_s_contexts_discarded ≡ length s.contexts.s_ctx
  pub c_contexts : report.multipart_c_contexts_discarded ≡ length s.contexts.c_ctx
  pub gid_contexts : report.multipart_gid_contexts_discarded ≡ length s.contexts.gid_ctx

-- From a processor with valid components, so also after an exception, `reset` leaves a consistent
-- processor without groups, deduplication entries, sources, states of sources or metadata, and
-- reports the sizes of the six tables that it emptied.
pub reset-Emptied :
    (now : ℕ) (s : Processor) → IsValid s → Emptied s (reset now s).0 (reset now s).1
unfolding reset Feed.reset Dedup.reset lookup
reset-Emptied now s v = record {
  consistent = record {
    valid = record {
      assembler = record {
        table = record {
          distinct = tt;
          within = record { fits = λ n q. ground (arith, v.assembler.table.within.fits n q) };
          partial = λ k g q. absurd (ground arith);
          started = λ k g q. absurd (ground arith);
          small = λ k q. absurd (ground arith);
        };
        peak_groups = omega arith;
        peak_fragments = omega arith;
      };
      timeout = v.timeout;
      deduplicator = record {
        synced = refl;
        distinct = tt;
        limit = λ n q. ((v.deduplicator.limit n q).0, omega arith);
        peak = omega arith;
      };
      source_state = Associated.reset-IsValid now s.source_state;
      contexts = record { distinct_s = tt; distinct_c = tt; distinct_gid = tt };
    };
    tracked = λ k h. absurd (ground arith);
  };
  no_groups = refl;
  no_entries = refl;
  no_sources = (Associated.reset_empties now s.source_state).1;
  no_source_states = (Associated.reset_empties now s.source_state).2;
  no_contexts = refl;
  groups = length-sorted key_ltb (keys s.assembler.groups) ∙ length-keys s.assembler.groups;
  entries = refl;
  sources = (Associated.reset_empties now s.source_state).0;
  s_contexts = refl;
  c_contexts = refl;
  gid_contexts = refl;
}
