-- ===== src/Processor/Correlated.antt =====
-- core/python_data_plane.py: the metadata tables of `PythonDataPlaneProcessor` beside the groups of
-- its assembler.
use aismixer.Prelude.{
  ℕ, Bool, false, ◌||◌, Option, none, some, List, [], ◌∷◌, ◌≡◌, ◌≢◌, refl, ap, arith, Text, member,
  if◌then◌else◌, is_some,
}
use aismixer.Prelude.Dict.{
  Dict, lookup, contains, remove, Distinct, lookup-insert_other, lookup-remove, Distinct-insert,
  Distinct-remove,
}
use aismixer.Assembler.{AssemblyKey, key_eq, AssemblyOutcome}
use aismixer.Processor.{
  ParsedTagMetadata, ProcessingConfig, Contexts, discard_contexts, carries_metadata, is_waiting,
  key_if, when_set, current_ingress_gid, seed_c, seed_gid, seed_s, correlate,
}

-- The key has an entry in one of the tables.
abbrev pub has_context : AssemblyKey → Contexts → Bool
has_context k c = contains k c.s_ctx || (contains k c.c_ctx || contains k c.gid_ctx)

pub record IsContexts (c : Contexts) : Type 0 where
  pub distinct_s : Distinct c.s_ctx
  pub distinct_c : Distinct c.c_ctx
  pub distinct_gid : Distinct c.gid_ctx

pub record Discarded (ks : List AssemblyKey) (c d : Contexts) : Type 0 where
  pub contexts : IsContexts d
  pub left : (k : AssemblyKey) → has_context k d ≡ (if member k ks then false else has_context k c)

pub discard_contexts-Discarded :
    (ks : List AssemblyKey) (c : Contexts) → IsContexts c → Discarded ks c (discard_contexts ks c)
unfolding discard_contexts
discard_contexts-Discarded [] c u = record { contexts = u; left = λ k. refl }
discard_contexts-Discarded (key ∷ ks) c u =
    let h =
      discard_contexts-Discarded ks
        (record {
          s_ctx = remove key c.s_ctx;
          c_ctx = remove key c.c_ctx;
          gid_ctx = remove key c.gid_ctx;
        })
        (record {
          distinct_s = Distinct-remove key c.s_ctx u.distinct_s;
          distinct_c = Distinct-remove key c.c_ctx u.distinct_c;
          distinct_gid = Distinct-remove key c.gid_ctx u.distinct_gid;
        }) in
    record {
      contexts = h.contexts;
      left = λ k. ground (
        arith,
        h.left k,
        lookup-remove key k c.s_ctx u.distinct_s,
        lookup-remove key k c.c_ctx u.distinct_c,
        lookup-remove key k c.gid_ctx u.distinct_gid,
      );
    }

-- A conditional write of one key.
record Seeded {V : Type 0} (key : Option AssemblyKey) (ctx ctx' : Dict AssemblyKey V) : Type 0 where
  distinct : Distinct ctx'
  new : (k : AssemblyKey) → key ≢ some k → lookup k ctx' ≡ lookup k ctx

seed_c-Seeded :
    (key : Option AssemblyKey) (v : Option ℕ) (ctx : Dict AssemblyKey ℕ)
    → Distinct ctx
    → Seeded key ctx (seed_c key v ctx)
unfolding seed_c
seed_c-Seeded none v ctx u = record { distinct = u; new = λ k ne. refl }
seed_c-Seeded (some key) none ctx u = record { distinct = u; new = λ k ne. refl }
seed_c-Seeded (some key) (some c) ctx u = record {
  distinct = Distinct-insert key _ ctx u;
  new = λ k ne. lookup-insert_other key k _ ctx (λ p. ne (ap some p));
}

seed_gid-Seeded :
    (key : Option AssemblyKey) (v : Option Text) (ctx : Dict AssemblyKey (List Text))
    → Distinct ctx
    → Seeded key ctx (seed_gid key v ctx)
unfolding seed_gid
seed_gid-Seeded none v ctx u = record { distinct = u; new = λ k ne. refl }
seed_gid-Seeded (some key) none ctx u = record { distinct = u; new = λ k ne. refl }
seed_gid-Seeded (some key) (some c) ctx u = record {
  distinct = Distinct-insert key _ ctx u;
  new = λ k ne. lookup-insert_other key k _ ctx (λ p. ne (ap some p));
}

seed_s-Seeded :
    (key : Option AssemblyKey) (v : Option Text) (ctx : Dict AssemblyKey Text)
    → Distinct ctx
    → Seeded key ctx (seed_s key v ctx)
unfolding seed_s
seed_s-Seeded none v ctx u = record { distinct = u; new = λ k ne. refl }
seed_s-Seeded (some key) none ctx u = record { distinct = u; new = λ k ne. refl }
seed_s-Seeded (some key) (some c) ctx u = record {
  distinct = Distinct-insert key _ ctx u;
  new = λ k ne. lookup-insert_other key k _ ctx (λ p. ne (ap some p));
}

module _ (config : ProcessingConfig) (tag : ParsedTagMetadata) (r : AssemblyOutcome) (c : Contexts)
    (u : IsContexts c) where
  pub correlate-IsContexts : IsContexts (correlate config tag r c)
  unfolding correlate
  correlate-IsContexts =
      let h = discard_contexts-Discarded r.discarded_keys c u in
      record {
        distinct_s = (seed_s-Seeded _ _ _ h.contexts.distinct_s).distinct;
        distinct_c = (seed_c-Seeded _ _ _ h.contexts.distinct_c).distinct;
        distinct_gid = (seed_gid-Seeded _ _ _ h.contexts.distinct_gid).distinct;
      }

  -- a key that no table is seeded with
  pub correlate-other :
      (k : AssemblyKey)
      → key_if (carries_metadata r.status) r ≢ some k
      → key_if (is_waiting r.status) r ≢ some k
      → has_context k (correlate config tag r c)
        ≡ (if member k r.discarded_keys then false else has_context k c)
  unfolding correlate
  correlate-other k ne nw =
      let d = discard_contexts r.discarded_keys c in
      let h = discard_contexts-Discarded r.discarded_keys c u in
      ground (
        arith,
        h.left k,
        (seed_s-Seeded (key_if (is_waiting r.status) r) (when_set (is_some tag.g_value) tag.s_value)
              d.s_ctx h.contexts.distinct_s).new
            k nw,
        (seed_c-Seeded (key_if (carries_metadata r.status) r)
              (when_set config.preserve_ingress_c tag.c_value) d.c_ctx h.contexts.distinct_c).new
            k ne,
        (seed_gid-Seeded (key_if (carries_metadata r.status) r)
              (when_set config.preserve_ingress_gid (current_ingress_gid tag)) d.gid_ctx
              h.contexts.distinct_gid).new
            k ne,
      )
