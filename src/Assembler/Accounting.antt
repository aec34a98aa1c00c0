-- ===== src/Assembler/Accounting.antt =====
-- assembler.py: what an outcome reports about the table.
use aismixer.Prelude.{
  ℕ, ◌≤◌, ◌<◌, true, none, some, ◌++◌, ◌≡◌, ◌≢◌, ◌⊎◌, inl, inr, ◌∙◌, refl, sym, ap, arith,
  if◌then◌else◌, member, member-append, Text, ok,
}
use aismixer.Prelude.Dict.{lookup, contains, lookup-insert}
use aismixer.Prelude.Order.{member-sorted}
use aismixer.Assembler.{
  AssemblyKey, key_eq, key_beq_iff, key_ltb, AssemblyStatus, duplicate, conflict, pending, complete,
  AssemblyOutcome, Assembler,
}
use aismixer.Assembler.Opening.{Opens, found, fresh}
use aismixer.Assembler.Feed.{Opened, empty_group, extended}
use aismixer.Assembler.Fed.{Opens-timeout, repeated, conflicting, extending, completing}
use aismixer.Assembler.Invariant.{
  IsValid, Ended, alone, too_large, multipart, feed-Feeds, feed_key, completing-Discards,
}

-- The status leaves the group of the key in the table.
abbrev pub IsLive : AssemblyStatus → Type 0
IsLive pending = Unit
IsLive duplicate = Unit
IsLive _ = ⊥

-- The status takes the group of the key off the table.
abbrev pub IsGone : AssemblyStatus → Type 0
IsGone complete = Unit
IsGone conflict = Unit
IsGone _ = ⊥

pub record Accounted (s : Assembler) (r : AssemblyOutcome) (t : Assembler) : Type 0 where
  -- the other keys: those reported as discarded go, the rest keep their groups
  pub others :
      (k : AssemblyKey)
      → r.group_key ≢ some k
      → lookup k t.groups ≡ (if member k r.discarded_keys then none else lookup k s.groups)
  pub live : (k : AssemblyKey) → r.group_key ≡ some k → IsLive r.status → contains k t.groups ≡ true
  pub gone : (k : AssemblyKey) → r.group_key ≡ some k → IsGone r.status → lookup k t.groups ≡ none
  pub conflict_discards :
      (k : AssemblyKey)
      → r.group_key ≡ some k
      → r.status ≡ conflict
      → member k r.discarded_keys ≡ true
  pub named : (k : AssemblyKey) → r.group_key ≡ some k → IsLive r.status ⊎ IsGone r.status
  pub timeout : t.timeout ≡ s.timeout

module _ (now : ℕ) (key : AssemblyKey) (ordinal : ℕ) (line : Text) (s : Assembler) (v : IsValid s)
    (lo : 1 ≤ ordinal) (hi : ordinal ≤ key.declared_total) (pos : 0 < s.timeout) where
  Opens-others :
      (o : Opened) (m : Assembler)
      → Opens now key s o m
      → (k : AssemblyKey) → k ≢ key
      → lookup k m.groups ≡ (if member k o.discarded then none else lookup k s.groups)
  Opens-others o m (found g e live eo em) k ne = rw (eo, em) refl
  Opens-others o m (fresh d c w h old gone room eo em) k ne =
      rw (eo, em)
        (ground
          (arith, lookup-insert key k (empty_group now) w.groups, h.kept k, key_beq_iff key k))

  pub Ended-Accounted :
      {r : AssemblyOutcome} {t : Assembler} → Ended now key ordinal line s r t → Accounted s r t
  Ended-Accounted (alone one er et) =
      rw (er, et)
        (record {
          others = λ k ne. refl;
          live = λ k e l. absurd (ground arith);
          gone = λ k e l. absurd (ground arith);
          conflict_discards = λ k e l. absurd (ground arith);
          named = λ k e. absurd (ground arith);
          timeout = refl;
        })
  Ended-Accounted (too_large over er et) =
      rw (er, et)
        (record {
          others = λ k ne. refl;
          live = λ k e l. absurd (ground arith);
          gone = λ k e l. absurd (ground arith);
          conflict_discards = λ k e l. absurd (ground arith);
          named = λ k e. absurd (ground arith);
          timeout = refl;
        })
  Ended-Accounted (multipart many fits (repeated g d m e q h kept er et)) =
      rw (er, et)
        (record {
          others = λ k ne. ground (arith, member-sorted key_ltb k d, h.kept k);
          live = λ k p l. ground (arith, h.kept k);
          gone = λ k p l. absurd l;
          conflict_discards = λ k p l. absurd (ground arith);
          named = λ k p. inl tt;
          timeout = h.settings.timeout;
        })
  Ended-Accounted (multipart many fits (conflicting g stored d m e q ne h kept er et)) =
      rw (er, et)
        (record {
          others = λ k ne. ground (arith, member-sorted key_ltb k d, h.kept k);
          live = λ k p l. absurd l;
          gone = λ k p l. ground (arith, h.kept k);
          conflict_discards = λ k p l. ground (arith, member-sorted key_ltb k d);
          named = λ k p. inr tt;
          timeout = h.settings.timeout;
        })
  Ended-Accounted (multipart many fits (extending o m d q opens part absent less h here er et)) =
      rw (er, et)
        (record {
          others = λ k ne. ground (
            arith,
            member-sorted key_ltb k (o.discarded ++ d),
            member-append k o.discarded d,
            h.kept k,
            lookup-insert key k (extended now ordinal line o.group) m.groups,
            key_beq_iff key k,
            Opens-others o m opens k (λ p. ne (ap some (sym p))),
          );
          live = λ k p l. ground (
            arith,
            h.kept k,
            lookup-insert key k (extended now ordinal line o.group) m.groups,
            key_beq_iff key k,
            here pos,
          );
          gone = λ k p l. absurd l;
          conflict_discards = λ k p l. absurd (ground arith);
          named = λ k p. inl tt;
          timeout = h.settings.timeout ∙ Opens-timeout now key s v.table.distinct o m opens;
        })
  Ended-Accounted
        (multipart many fits (completing o m lines opens part full absent len ord er et)) =
      let (h, none_discarded) =
        completing-Discards now key ordinal line s v lo hi fits o m opens many full in
      rw (er, et)
        (record {
          others = λ k ne. ground (
            arith,
            h.kept k,
            key_beq_iff key k,
            none_discarded,
            member-sorted key_ltb k o.discarded,
          );
          live = λ k p l. absurd l;
          gone = λ k p l. ground (arith, h.kept k, key_beq_iff key k);
          conflict_discards = λ k p l. absurd (ground arith);
          named = λ k p. inr tt;
          timeout = Opens-timeout now key s v.table.distinct o m opens;
        })

-- From a valid state with a positive timeout, the outcome accounts for the table. A key that the
-- outcome does not name keeps its group exactly if it is not among the discarded keys; the named
-- key has a group after PENDING and DUPLICATE and none after COMPLETE and CONFLICT, and CONFLICT
-- lists it as discarded; only an outcome with one of these statuses names a key.
pub feed-Accounted :
    (now : ℕ) (key : AssemblyKey) (ordinal : ℕ) (line : Text) (s : Assembler)
    → IsValid s
    → 1 ≤ ordinal
    → ordinal ≤ key.declared_total
    → 0 < s.timeout
    → (r : AssemblyOutcome) × (t : Assembler) × (feed_key now key ordinal line s ≡ (ok r, t))
      × Accounted s r t
feed-Accounted now key ordinal line s v lo hi pos =
    let f = feed-Feeds now key ordinal line s v lo hi in
    (f.result, f.after, f.runs, Ended-Accounted now key ordinal line s v lo hi pos f.ended)
