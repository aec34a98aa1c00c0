-- ===== src/Processor/Tracked.antt =====
-- core/python_data_plane.py: the metadata tables of `_process_impl` beside the groups of the
-- assembler.
use aismixer.Prelude.{
  true, Option, none, some, [], ◌∷◌, ◌≡◌, ◌≢◌, ◌⊎◌, inl, inr, refl, ap, ◌∙◌, arith, Bool-cases,
  Option-cases, nat_eq, text_eq,
}
use aismixer.Prelude.Dict.{contains}
use aismixer.Assembler.{
  AssemblyKey, key_eq, key_beq_iff, AssemblyStatus, invalid, single, limit_exceeded, pending,
  duplicate, conflict, complete, AssemblyOutcome, Assembler,
}
use aismixer.Assembler.Accounting.{Accounted, IsGone}
use aismixer.Dedup.{cache_key_eq}
use aismixer.Processor.{
  lines_eq, ParsedTagMetadata, ProcessingConfig, Contexts, correlate, completed_key, consume,
}
use aismixer.Processor.Correlated.{
  has_context, IsContexts, discard_contexts-Discarded, correlate-other,
}

-- Every key with metadata has a group.
abbrev pub IsTracked : Contexts → Assembler → Type 0
IsTracked c a = (k : AssemblyKey) → has_context k c ≡ true → contains k a.groups ≡ true

gone_cases : (status : AssemblyStatus) → IsGone status → (status ≡ complete) ⊎ (status ≡ conflict)
gone_cases complete h = inl refl
gone_cases conflict h = inr refl
gone_cases invalid h = absurd h
gone_cases single h = absurd h
gone_cases limit_exceeded h = absurd h
gone_cases pending h = absurd h
gone_cases duplicate h = absurd h

module _ (config : ProcessingConfig) (tag : ParsedTagMetadata) {s t : Assembler}
    (r : AssemblyOutcome) (c : Contexts) (u : IsContexts c) (acc : Accounted s r t)
    (tracked : IsTracked c s) where
  unnamed_key :
      (k : AssemblyKey)
      → r.group_key ≢ some k
      → has_context k (correlate config tag r c) ≡ true
      → contains k t.groups ≡ true
  unnamed_key k ne h = ground (
    arith,
    acc.others k ne,
    tracked k,
    correlate-other config tag r c u k (λ p. ground arith) (λ p. ground arith),
  )

  named_key :
      (k : AssemblyKey)
      → r.group_key ≡ some k
      → completed_key r ≢ some k
      → has_context k (correlate config tag r c) ≡ true
      → contains k t.groups ≡ true
  named_key k p open_key h = elim (acc.named k p) [
    | inl live ↦ acc.live k p live
    | inr gone ↦ elim (gone_cases r.status gone) [
      | inl done ↦ absurd (open_key (rw done p))
      | inr clash ↦ ground (
        arith,
        acc.conflict_discards k p clash,
        correlate-other config tag r c u k (λ q. ground arith) (λ q. ground arith),
      )
    ]
  ]

  pub correlate-IsTracked :
      (k : AssemblyKey)
      → completed_key r ≢ some k
      → has_context k (correlate config tag r c) ≡ true
      → contains k t.groups ≡ true
  correlate-IsTracked k open_key h = elim (Option-cases r.group_key) [
    | inl anonymous ↦ unnamed_key k (λ q. ground arith) h
    | inr (j, e) ↦ elim (Bool-cases (key_eq.beq j k)) [
      | inl same ↦ named_key k (e ∙ ap some ((key_beq_iff j k).0 same)) open_key h
      | inr other ↦ unnamed_key k (λ q. ground (arith, key_beq_iff j k)) h
    ]
  ]

pub consume-IsContexts :
    (key : Option AssemblyKey) (c : Contexts) → IsContexts c → IsContexts (consume key c)
consume-IsContexts none c u = u
consume-IsContexts (some key) c u = (discard_contexts-Discarded (key ∷ []) c u).contexts

pub consume-left :
    (key : Option AssemblyKey) (c : Contexts)
    → IsContexts c
    → (k : AssemblyKey) → has_context k (consume key c) ≡ true
    → (key ≢ some k) × (has_context k c ≡ true)
consume-left none c u k h = ((λ q. ground arith), h)
consume-left (some key) c u k h =
    let d = discard_contexts-Discarded (key ∷ []) c u in
    ((λ q. ground (arith, d.left k, key_beq_iff key k)), ground (arith, d.left k))
