-- ===== src/Assembler/Fed.antt =====
-- assembler.py: one arriving fragment of a multipart message; the ways `_feed_validated_fragment`
-- can end, with the state after each.
use native.Mathlib.Decide.{dec_lt}
use aismixer.Prelude.{
  ℕ, suc, ◌+◌, ◌≤◌, ◌<◌, true, false, none, some, List, [], ◌∷◌, ◌++◌, ◌≡◌, ◌≢◌, refl, ◌∙◌, ap,
  arith, ◌==◌, nat_eq, text_eq, list_beq_iff, nat_beq_iff, length, get_elem?, member, Text, ok,
  Exec, Option-cases, Bool-cases, inl, inr, max,
}
use aismixer.Prelude.Dict.{
  lookup, contains, insert, remove, Distinct, lookup-insert, Distinct-insert, length-insert,
}
use aismixer.Prelude.Order.{sorted}
use aismixer.Assembler.{
  AssemblyKey, key_eq, key_ltb, key_beq_iff, AssemblyStatus, duplicate, conflict, pending, complete,
  AssemblyOutcome, AssemblyGroup, received_count, Assembler, is_stale, bump, outcome, delete_group,
  expired_keys, sum_received, update_peaks,
}
use aismixer.Assembler.Cleanup.{cleaned_up, cleanup_expired_lem, member-expired_keys}
use aismixer.Assembler.Discards.{
  Discards, Discards-nil, Discards-append, Discards-cleaned_up, Discards-one,
}
use aismixer.Assembler.Opening.{Opens, found, fresh, with_group}
use aismixer.Assembler.Ordinals.{
  Ordinals, Ordinals-nil, Ordinals-insert, Ordinals-full, collect-Collected,
}
use aismixer.Assembler.Feed.{
  Opened, empty_group, extended, repeat_fragment, new_fragment, add_fragment,
}

-- A group that is not complete: unique ordinals in range, and fewer of them than declared.
pub record Partial (key : AssemblyKey) (g : AssemblyGroup) : Type 0 where
  pub ordinals : Ordinals key.declared_total g.fragments_by_ordinal
  pub unfinished : received_count g < key.declared_total

abbrev pub counted : AssemblyStatus → Assembler → Assembler
counted status s = record s { outcome_counts = bump status s.outcome_counts }

abbrev pub without_group : AssemblyKey → Assembler → Assembler
without_group key s = record s { groups = remove key s.groups }

abbrev pub peaked : Assembler → Assembler
peaked s = record s {
  peak_groups = max s.peak_groups (length s.groups);
  peak_fragments = max s.peak_fragments (sum_received s.groups);
}

abbrev pub report : AssemblyStatus → AssemblyKey → List Text → List AssemblyKey → AssemblyOutcome
report status key sentences discarded = record {
  status = status;
  group_key = some key;
  sentences = sentences;
  discarded_keys = sorted key_ltb discarded;
}

module _ (now : ℕ) (key : AssemblyKey) (ordinal : ℕ) (line : Text) (s : Assembler) where
  pub data Fed (r : AssemblyOutcome) (t : Assembler) : Type 0 where
    repeated :
        (g : AssemblyGroup) (d : List AssemblyKey) (m : Assembler)
        → lookup key s.groups ≡ some g
        → lookup ordinal g.fragments_by_ordinal ≡ some line
        → Discards d s m
        → member key d ≡ false
        → r ≡ report duplicate key [] d
        → t ≡ counted duplicate m
        → Fed r t
    conflicting :
        (g : AssemblyGroup) (stored : Text) (d : List AssemblyKey) (m : Assembler)
        → lookup key s.groups ≡ some g
        → lookup ordinal g.fragments_by_ordinal ≡ some stored
        → stored ≢ line
        → Discards d s m
        → member key d ≡ true
        → r ≡ report conflict key [] d
        → t ≡ counted conflict m
        → Fed r t
    extending :
        (o : Opened) (m : Assembler) (d : List AssemblyKey) (q : Assembler)
        → Opens now key s o m
        → Partial key o.group
        → lookup ordinal o.group.fragments_by_ordinal ≡ none
        → suc (received_count o.group) < key.declared_total
        → Discards d (with_group key (extended now ordinal line o.group) m) q
        → (0 < s.timeout → member key d ≡ false)
        → r ≡ report pending key [] (o.discarded ++ d)
        → t ≡ counted pending (peaked q)
        → Fed r t
    completing :
        (o : Opened) (m : Assembler) (lines : List Text)
        → Opens now key s o m
        → Partial key o.group
        → suc (received_count o.group) ≡ key.declared_total
        → lookup ordinal o.group.fragments_by_ordinal ≡ none
        → length lines ≡ key.declared_total
        → ((i : ℕ)
            → i < key.declared_total
            → get_elem? lines i ≡ lookup (1 + i) (insert ordinal line o.group.fragments_by_ordinal))
        → r ≡ report complete key lines o.discarded
        → t
          ≡ counted complete
              (without_group key (with_group key (extended now ordinal line o.group) m))
        → Fed r t

  pub record Feeding (run : Exec Assembler AssemblyOutcome) (m : Assembler) : Type 0 where
    pub result : AssemblyOutcome
    pub after : Assembler
    pub runs : run m ≡ (ok result, after)
    pub fed : Fed result after

module _ (now : ℕ) (key : AssemblyKey) (s : Assembler) (u : Distinct s.groups) where
  Opens-Distinct : (o : Opened) (m : Assembler) → Opens now key s o m → Distinct m.groups
  Opens-Distinct o m (found g e live eo em) = rw em u
  Opens-Distinct o m (fresh d c w h old absent room eo em) =
      rw em (Distinct-insert key (empty_group now) w.groups h.distinct)

  Opens-lookup :
      (o : Opened) (m : Assembler) → Opens now key s o m → lookup key m.groups ≡ some o.group
  Opens-lookup o m (found g e live eo em) = rw (em, eo) e
  Opens-lookup o m (fresh d c w h old absent room eo em) =
      rw (em, eo)
        (ground (arith, lookup-insert key key (empty_group now) w.groups, key_beq_iff key key))

  pub Opens-timeout : (o : Opened) (m : Assembler) → Opens now key s o m → m.timeout ≡ s.timeout
  Opens-timeout o m (found g e live eo em) = ap (λ a. a.timeout) em
  Opens-timeout o m (fresh d c w h old absent room eo em) =
      ap (λ a. a.timeout) em ∙ h.settings.timeout

  Opens-Partial :
      (o : Opened) (m : Assembler)
      → Opens now key s o m
      → 1 ≤ key.declared_total
      → ((g : AssemblyGroup) → lookup key s.groups ≡ some g → Partial key g)
      → Partial key o.group
  Opens-Partial o m (found g e live eo em) lo h = rw eo (h g e)
  Opens-Partial o m (fresh d c w k old absent room eo em) lo h =
      rw eo (record { ordinals = Ordinals-nil key.declared_total; unfinished = omega arith })

  module _ (ordinal : ℕ) (line : Text) where
    feed_repeated :
        (g : AssemblyGroup)
        → lookup key s.groups ≡ some g
        → is_stale s.timeout now g ≡ false
        → lookup ordinal g.fragments_by_ordinal ≡ some line
        → Feeding now key ordinal line s (repeat_fragment now key line line []) s
    unfolding repeat_fragment outcome
    feed_repeated g e live q =
        let d = expired_keys now s in
        record {
          result = report duplicate key [] d;
          after = counted duplicate (cleaned_up now s);
          runs = rw ((list_beq_iff line line).1 refl, cleanup_expired_lem now s u) refl;
          fed =
              repeated g d (cleaned_up now s) e q (Discards-cleaned_up now s u)
                (member-expired_keys now s u key ∙ rw e live) refl refl;
        }

    feed_conflicting :
        (g : AssemblyGroup) (stored : Text)
        → lookup key s.groups ≡ some g
        → lookup ordinal g.fragments_by_ordinal ≡ some stored
        → (stored == line) ≡ false
        → Feeding now key ordinal line s (repeat_fragment now key stored line []) s
    unfolding repeat_fragment outcome delete_group
    feed_conflicting g stored e q ne =
        let c : contains key s.groups ≡ true = rw e refl in
        let m = without_group key s in
        let one =
          Discards-one key s m
            (record { max_fragments_per_group = refl; max_pending_groups = refl; timeout = refl })
            refl refl refl c u in
        let d = key ∷ expired_keys now m in
        record {
          result = report conflict key [] d;
          after = counted conflict (cleaned_up now m);
          runs = rw (ne, c, cleanup_expired_lem now m one.distinct) refl;
          fed =
              conflicting g stored d (cleaned_up now m) e q
                (λ p. ground (arith, list_beq_iff stored line))
                (Discards-append one (Discards-cleaned_up now m one.distinct))
                (ground (arith, key_beq_iff key key)) refl refl;
        }

    module _ (o : Opened) (m : Assembler) (opens : Opens now key s o m) (part : Partial key o.group)
        (absent : lookup ordinal o.group.fragments_by_ordinal ≡ none) where
      abbrev grown : AssemblyGroup
      grown = extended now ordinal line o.group

      abbrev stored_in : Assembler
      stored_in = with_group key grown m

      Distinct-stored_in : Distinct stored_in.groups
      Distinct-stored_in = Distinct-insert key grown m.groups (Opens-Distinct o m opens)

      received-grown : received_count grown ≡ suc (received_count o.group)
      received-grown = ground (arith, length-insert ordinal line o.group.fragments_by_ordinal)

      feed_completing :
          1 ≤ ordinal
          → ordinal ≤ key.declared_total
          → received_count grown ≡ key.declared_total
          → Feeding now key ordinal line s (new_fragment now key ordinal line o) m
      unfolding new_fragment outcome delete_group
      feed_completing lo hi full =
          let ords =
            Ordinals-insert key.declared_total ordinal line o.group.fragments_by_ordinal lo hi
              part.ordinals in
          let c =
            collect-Collected grown.fragments_by_ordinal 1 key.declared_total stored_in
              (λ i l h. Ordinals-full key.declared_total i _ ords full l (omega arith)) in
          let here : contains key stored_in.groups ≡ true =
            ground (arith, lookup-insert key key grown m.groups, key_beq_iff key key) in
          record {
            result = report complete key c.lines o.discarded;
            after = counted complete (without_group key stored_in);
            runs =
                rw ((nat_beq_iff (received_count grown) key.declared_total).1 full, c.runs, here)
                  refl;
            fed =
                completing o m c.lines opens part (omega (arith, received-grown)) absent c.complete
                  c.in_order refl refl;
          }

      not_full :
          suc (received_count o.group) < key.declared_total
          → (received_count grown == key.declared_total) ≡ false
      not_full less = ground (arith, received-grown)

      still_live : 0 < s.timeout → member key (expired_keys now stored_in) ≡ false
      unfolding is_stale
      still_live pos = ground (
        arith,
        member-expired_keys now stored_in Distinct-stored_in key,
        lookup-insert key key grown m.groups,
        key_beq_iff key key,
        Opens-timeout o m opens,
      )

      feed_extending :
          suc (received_count o.group) < key.declared_total
          → Feeding now key ordinal line s (new_fragment now key ordinal line o) m
      unfolding new_fragment outcome update_peaks
      feed_extending less = elim (Bool-cases o.cleaned) [
        | inl done ↦ record {
          result = report pending key [] (o.discarded ++ []);
          after = counted pending (peaked stored_in);
          runs = rw (not_full less, done) refl;
          fed =
              extending o m [] stored_in opens part absent less
                (Discards-nil stored_in Distinct-stored_in) (λ pos. refl) refl refl;
        }
        | inr open_still ↦ record {
          result = report pending key [] (o.discarded ++ expired_keys now stored_in);
          after = counted pending (peaked (cleaned_up now stored_in));
          runs =
              rw (not_full less, open_still, cleanup_expired_lem now stored_in Distinct-stored_in)
                refl;
          fed =
              extending o m (expired_keys now stored_in) (cleaned_up now stored_in) opens part
                absent less (Discards-cleaned_up now stored_in Distinct-stored_in) still_live refl
                refl;
        }
      ]

    feed_again :
        (o : Opened) (m : Assembler)
        → Opens now key s o m
        → (stored : Text) → lookup ordinal o.group.fragments_by_ordinal ≡ some stored
        → Feeding now key ordinal line s (repeat_fragment now key stored line o.discarded) m
    unfolding lookup
    feed_again o m (found g e live eo em) stored q =
        rw (eo, em)
          (elim (Bool-cases (stored == line)) [
            | inl same ↦
                let p : stored ≡ line = (list_beq_iff stored line).0 same in
                rw p (feed_repeated g e live ((rw eo at q) ∙ ap some p))
            | inr other ↦ feed_conflicting g stored e (rw eo at q) other
          ])
    feed_again o m (fresh d c w h old gone room eo em) stored q =
        let none_there : lookup ordinal (empty_group now).fragments_by_ordinal ≡ some stored =
          rw eo at q in
        absurd (ground arith)

    pub feed_opened :
        (o : Opened) (m : Assembler)
        → Opens now key s o m
        → 1 ≤ ordinal
        → ordinal ≤ key.declared_total
        → ((g : AssemblyGroup) → lookup key s.groups ≡ some g → Partial key g)
        → Feeding now key ordinal line s (add_fragment now key ordinal line o) m
    unfolding add_fragment
    feed_opened o m opens lo hi partial =
        elim (Option-cases (lookup ordinal o.group.fragments_by_ordinal)) [
          | inl absent ↦
              let part = Opens-Partial o m opens (omega arith) partial in
              rw (absent, add_fragment)
                (elim (dec_lt (suc (received_count o.group)) key.declared_total) [
                  | yes less ↦ feed_extending o m opens part absent less
                  | no full ↦
                      feed_completing o m opens part absent lo hi
                        (omega (arith, received-grown o m opens part absent, part.unfinished))
                ])
          | inr (stored, e) ↦ rw (e, add_fragment) (feed_again o m opens stored e)
        ]
