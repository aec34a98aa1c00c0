-- ===== src/Assembler/Reassembly.antt =====
-- assembler.py: runs of `_feed_validated_fragment` over the fragments of one message.
use mathlib.Core.Path.{subst}
use aismixer.Prelude.{
  ℕ, suc, ◌+◌, ◌≤◌, ◌<◌, false, none, some, List, [], ◌∷◌, ◌≡◌, ◌⊎◌, inl, inr, refl, sym, ◌∙◌, ap,
  arith, nat_eq, get_elem?, length, Text, ok, Exec, pure, ◌>>=◌,
}
use aismixer.Prelude.Dict.{Dict, lookup, insert, lookup-insert, length-insert}
use aismixer.Assembler.{
  AssemblyKey, key_eq, key_beq_iff, pending, complete, AssemblyOutcome, AssemblyGroup, Assembler,
  is_stale, exceeds,
}
use aismixer.Assembler.Opening.{Opens, found, fresh}
use aismixer.Assembler.Feed.{Opened, extended}
use aismixer.Assembler.Fed.{repeated, conflicting, extending, completing}
use aismixer.Assembler.Invariant.{
  IsValid, Ended, alone, too_large, multipart, feed-Feeds, feed_key, completing-Discards,
}

pub record Arrival : Type 0 where
  pub at : ℕ
  pub ordinal : ℕ
  pub sentence : Text

-- Feed the arrivals one by one; the outcomes, in order.
unfoldable pub feed_arrivals : AssemblyKey → List Arrival → Exec Assembler (List AssemblyOutcome)
feed_arrivals key [] = pure []
feed_arrivals key (a ∷ rest) = do
  r ← feed_key a.at key a.ordinal a.sentence
  rs ← feed_arrivals key rest
  pure (r ∷ rs)

-- The sentence that arrived under each ordinal.
unfoldable pub sentences_of : List Arrival → Dict ℕ Text → Dict ℕ Text
sentences_of [] d = d
sentences_of (a ∷ rest) d = sentences_of rest (insert a.ordinal a.sentence d)

-- Each arrival is less than the timeout after the one before.
abbrev pub Timely : ℕ → ℕ → List Arrival → Type 0
Timely timeout last [] = Unit
Timely timeout last (a ∷ rest) = (a.at < last + timeout) × Timely timeout a.at rest

-- Ordinals in range, and none of them twice or already there.
abbrev pub NewOrdinals : ℕ → List Arrival → Dict ℕ Text → Type 0
NewOrdinals total [] d = Unit
NewOrdinals total (a ∷ rest) d =
    (1 ≤ a.ordinal)
    × (a.ordinal ≤ total)
    × (lookup a.ordinal d ≡ none)
    × NewOrdinals total rest (insert a.ordinal a.sentence d)

-- PENDING up to the last outcome, which is COMPLETE with the lines.
abbrev pub EndsComplete : List Text → List AssemblyOutcome → Type 0
EndsComplete lines [] = ⊥
EndsComplete lines (r ∷ []) = (r.status ≡ complete) × (r.sentences ≡ lines)
EndsComplete lines (r ∷ r' ∷ rs) = (r.status ≡ pending) × EndsComplete lines (r' ∷ rs)

EndsComplete-cons :
    (lines : List Text) (r : AssemblyOutcome) (rs : List AssemblyOutcome)
    → r.status ≡ pending
    → EndsComplete lines rs
    → EndsComplete lines (r ∷ rs)
EndsComplete-cons lines r [] w h = absurd h
EndsComplete-cons lines r (x ∷ rs) w h = (w, h)

module _ (key : AssemblyKey) where
  pub record Reassembled (arrivals : List Arrival) (d : Dict ℕ Text) (s : Assembler) : Type 0 where
    pub outcomes : List AssemblyOutcome
    pub lines : List Text
    pub after : Assembler
    pub runs : feed_arrivals key arrivals s ≡ (ok outcomes, after)
    pub valid : IsValid after
    pub ends : EndsComplete lines outcomes
    pub total : length lines ≡ key.declared_total
    pub in_order :
        (i : ℕ)
        → i < key.declared_total
        → get_elem? lines i ≡ lookup (1 + i) (sentences_of arrivals d)
    pub gone : lookup key after.groups ≡ none

  -- The group that the next arrival finds: `d` is stored under the key, or nothing yet.
  abbrev pub Holds : ℕ → Dict ℕ Text → Assembler → Type 0
  Holds last d s =
      (lookup key s.groups ≡ some (record { fragments_by_ordinal = d; last_progress_at = last }))
      ⊎ ((lookup key s.groups ≡ none) × (d ≡ []))

module _ (key : AssemblyKey) (many : 2 ≤ key.declared_total) where
  module _ (last : ℕ) (d : Dict ℕ Text) (a : Arrival) (s : Assembler) (h : Holds key last d s)
      (timely : a.at < last + s.timeout) (pos : 0 < s.timeout) where
    Opens-fragments :
        (o : Opened) (m : Assembler) → Opens a.at key s o m → o.group.fragments_by_ordinal ≡ d
    unfolding is_stale
    Opens-fragments o m (found g e live eo em) = rw eo (ground arith)
    Opens-fragments o m (fresh c b w k old gone room eo em) = rw eo (elim h [
      | inl there ↦ absurd (ground (arith, old _ there))
      | inr (absent, empty) ↦ sym empty
    ])

    Opens-settings :
        (o : Opened) (m : Assembler)
        → Opens a.at key s o m
        → (m.timeout ≡ s.timeout) × (m.max_fragments_per_group ≡ s.max_fragments_per_group)
    Opens-settings o m (found g e live eo em) = rw em (refl, refl)
    Opens-settings o m (fresh c b w k old gone room eo em) =
        rw em (k.settings.timeout, k.settings.max_fragments_per_group)

    record Stepped (r : AssemblyOutcome) (t : Assembler) : Type 0 where
      waiting : r.status ≡ pending
      holds : Holds key a.at (insert a.ordinal a.sentence d) t
      timeout : t.timeout ≡ s.timeout
      limit : t.max_fragments_per_group ≡ s.max_fragments_per_group

    module _ (fits : exceeds s.max_fragments_per_group key.declared_total ≡ false)
        (new : lookup a.ordinal d ≡ none) where
      -- a repeated ordinal is excluded
      no_repeat :
          (g : AssemblyGroup) (stored : Text)
          → lookup key s.groups ≡ some g
          → lookup a.ordinal g.fragments_by_ordinal ≡ some stored
          → ⊥
      no_repeat g stored e q = elim h [
        | inl there ↦ ground arith
        | inr (absent, empty) ↦ ground arith
      ]

      step_pending :
          {r : AssemblyOutcome} {t : Assembler}
          → suc (length d) < key.declared_total
          → Ended a.at key a.ordinal a.sentence s r t
          → Stepped r t
      step_pending less (alone one er et) = absurd (omega (arith, one))
      step_pending less (too_large over er et) = absurd (ground arith)
      step_pending less (multipart ne lim (repeated g c m e q k gone er et)) =
          absurd (no_repeat g a.sentence e q)
      step_pending less (multipart ne lim (conflicting g stored c m e q dif k gone er et)) =
          absurd (no_repeat g stored e q)
      step_pending less
            (multipart ne lim (completing o m lines opens part full absent len ord er et)) =
          absurd (omega (arith, full, ap length (Opens-fragments o m opens)))
      step_pending less
            (multipart ne lim (extending o m c q opens part absent short k here er et)) =
          let same : o.group.fragments_by_ordinal ≡ d = Opens-fragments o m opens in
          let (timeout, limit) = Opens-settings o m opens in
          rw (er, et)
            (record {
              waiting = refl;
              holds = inl (
                  ground (
                    arith,
                    k.kept key,
                    here pos,
                    lookup-insert key key (extended a.at a.ordinal a.sentence o.group) m.groups,
                    key_beq_iff key key,
                  ));
              timeout = k.settings.timeout ∙ timeout;
              limit = k.settings.max_fragments_per_group ∙ limit;
            })

      record Finished (r : AssemblyOutcome) (t : Assembler) : Type 0 where
        done : r.status ≡ complete
        total : length r.sentences ≡ key.declared_total
        in_order :
            (i : ℕ)
            → i < key.declared_total
            → get_elem? r.sentences i ≡ lookup (1 + i) (insert a.ordinal a.sentence d)
        gone : lookup key t.groups ≡ none

      step_complete :
          {r : AssemblyOutcome} {t : Assembler}
          → IsValid s
          → 1 ≤ a.ordinal
          → a.ordinal ≤ key.declared_total
          → suc (length d) ≡ key.declared_total
          → Ended a.at key a.ordinal a.sentence s r t
          → Finished r t
      step_complete v lo hi all (alone one er et) = absurd (omega (arith, one))
      step_complete v lo hi all (too_large over er et) = absurd (ground arith)
      step_complete v lo hi all (multipart ne lim (repeated g c m e q k gone er et)) =
          absurd (no_repeat g a.sentence e q)
      step_complete v lo hi all (multipart ne lim (conflicting g stored c m e q dif k gone er et)) =
          absurd (no_repeat g stored e q)
      step_complete v lo hi all
            (multipart ne lim (extending o m c q opens part absent short k here er et)) =
          absurd (omega (arith, short, ap length (Opens-fragments o m opens)))
      step_complete v lo hi all
            (multipart ne lim (completing o m lines opens part full absent len ord er et)) =
          let same : o.group.fragments_by_ordinal ≡ d = Opens-fragments o m opens in
          let (k, nothing) =
            completing-Discards a.at key a.ordinal a.sentence s v lo hi fits o m opens ne full in
          rw (er, et)
            (record {
              done = refl;
              total = len;
              in_order = λ i lt. rw same at (ord i lt);
              gone = ground (arith, k.kept key, key_beq_iff key key);
            })

  -- Fragments of one message of at least two declared parts, and of no more than the limit of
  -- fragments per group if there is one, fed one after the other into a valid assembler with a
  -- positive timeout that holds some fragments of the message or none: if at least one fragment is
  -- missing, the missing ordinals all come, once each, and every fragment is less than the timeout
  -- after the one before, then every outcome but the last is PENDING, and the last is COMPLETE with
  -- the sentences in ordinal order, whatever order they arrived in; the group is gone.
  pub reassemble :
      (arrivals : List Arrival) (last : ℕ) (d : Dict ℕ Text) (s : Assembler)
      → IsValid s
      → Holds key last d s
      → 0 < s.timeout
      → exceeds s.max_fragments_per_group key.declared_total ≡ false
      → Timely s.timeout last arrivals
      → NewOrdinals key.declared_total arrivals d
      → length arrivals + length d ≡ key.declared_total
      → 1 ≤ length arrivals
      → Reassembled key arrivals d s
  unfolding feed_arrivals sentences_of
  reassemble [] last d s v h pos fits timely new all some_left = absurd (omega arith)
  reassemble (a ∷ []) last d s v h pos fits timely new all some_left =
      let f = feed-Feeds a.at key a.ordinal a.sentence s v new.0 new.1 in
      let e =
        step_complete last d a s h timely.0 pos fits new.2 v new.0 new.1 (omega arith) f.ended in
      record {
        outcomes = f.result ∷ [];
        lines = f.result.sentences;
        after = f.after;
        runs = rw f.runs refl;
        valid = f.valid;
        ends = (e.done, refl);
        total = e.total;
        in_order = e.in_order;
        gone = e.gone;
      }
  reassemble (a ∷ b ∷ rest) last d s v h pos fits timely new all some_left =
      let f = feed-Feeds a.at key a.ordinal a.sentence s v new.0 new.1 in
      let e = step_pending last d a s h timely.0 pos fits new.2 (omega arith) f.ended in
      let r =
        reassemble (b ∷ rest) a.at (insert a.ordinal a.sentence d) f.after f.valid e.holds
          (rw e.timeout pos) (rw e.limit fits)
          (subst (λ t. Timely t a.at (b ∷ rest)) (sym e.timeout) timely.1) new.3
          (ground (arith, length-insert a.ordinal a.sentence d)) (omega arith) in
      record {
        outcomes = f.result ∷ r.outcomes;
        lines = r.lines;
        after = r.after;
        runs = rw (f.runs, r.runs) refl;
        valid = r.valid;
        ends = EndsComplete-cons r.lines f.result r.outcomes e.waiting r.ends;
        total = r.total;
        in_order = r.in_order;
        gone = r.gone;
      }
