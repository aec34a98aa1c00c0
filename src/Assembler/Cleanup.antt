-- ===== src/Assembler/Cleanup.antt =====
-- assembler.py: `cleanup_expired`, and the filter of the live groups.
use aismixer.Prelude.{
  ℕ, ◌+◌, true, false, none, some, List, [], ◌∷◌, ◌≡◌, refl, ◌∙◌, ap, arith, length, All, member,
  Unique, ok,
}
use aismixer.Prelude.Dict.{Dict, lookup, contains, remove, Distinct, lookup-remove, Distinct-remove}
use aismixer.Prelude.Filter.{
  select_keys, reject, without, keep, without-remove, without-nil, without-reject, lookup-reject,
  Distinct-reject, member-select_keys, Unique-select_keys,
}
use aismixer.Prelude.Order.{member-sorted, Unique-sorted}
use aismixer.Assembler.{
  AssemblyKey, key_eq, key_ltb, key_beq_iff, AssemblyGroup, Assembler, is_stale, delete_group,
  expire_group, expire_groups, expired_keys, cleanup_expired,
}

abbrev pub live_groups : ℕ → Assembler → Dict AssemblyKey AssemblyGroup
live_groups now s = reject (is_stale s.timeout now) s.groups

-- the state after the groups of the keys are expired
abbrev expire_all : List AssemblyKey → Assembler → Assembler
expire_all ks s = record s { groups = without ks s.groups; expired = s.expired + length ks }

-- every listed key has a group
abbrev Present : Dict AssemblyKey AssemblyGroup → List AssemblyKey → Type 0
Present d = All (λ k. contains k d ≡ true)

Present-remove :
    (k : AssemblyKey) (ks : List AssemblyKey) (d : Dict AssemblyKey AssemblyGroup)
    → Distinct d
    → member k ks ≡ false
    → Present d ks
    → Present (remove k d) ks
Present-remove k [] d u h p = tt
Present-remove k (j ∷ ks) d u h p =
    ground (arith, lookup-remove k j d u, key_beq_iff j k, key_beq_iff k j, Present-remove k ks d u)

abbrev pub dropped : AssemblyKey → Assembler → Assembler
dropped key s = record s { groups = remove key s.groups; expired = s.expired + 1 }

pub expire_group_present :
    (key : AssemblyKey) (s : Assembler)
    → contains key s.groups ≡ true
    → expire_group key s ≡ (ok tt, dropped key s)
unfolding expire_group delete_group
expire_group_present key s h = ground arith

expire_all-dropped :
    (k : AssemblyKey) (ks : List AssemblyKey) (s : Assembler)
    → Distinct s.groups
    → expire_all ks (dropped k s) ≡ expire_all (k ∷ ks) s
expire_all-dropped k ks s u = ground (arith, without-remove k ks s.groups u)

expire_groups-expire_all :
    (ks : List AssemblyKey) (s : Assembler)
    → Distinct s.groups
    → Unique ks
    → Present s.groups ks
    → expire_groups ks s ≡ (ok tt, expire_all ks s)
unfolding expire_groups
expire_groups-expire_all [] s u q p = ground (arith, without-nil s.groups)
expire_groups-expire_all (k ∷ ks) s u q p = rw (expire_group_present k s p.0) (
    expire_groups-expire_all ks (dropped k s) (Distinct-remove k s.groups u) q.1
      (Present-remove k ks s.groups u q.0 p.1)
    ∙ ap (λ t. (ok tt, t)) (expire_all-dropped k ks s u))

-- what the cleanup leaves
abbrev pub cleaned_up : ℕ → Assembler → Assembler
cleaned_up now s = record s {
  groups = live_groups now s;
  expired = s.expired + length (expired_keys now s);
}

module _ (now : ℕ) (s : Assembler) (u : Distinct s.groups) where
  pub member-expired_keys :
      (k : AssemblyKey)
      → member k (expired_keys now s)
        ≡ elim (lookup k s.groups) [ none ↦ false | some g ↦ is_stale s.timeout now g ]
  member-expired_keys k =
      member-sorted key_ltb k (select_keys (is_stale s.timeout now) s.groups)
      ∙ member-select_keys (is_stale s.timeout now) k s.groups u

  member-Present :
      (ks : List AssemblyKey)
      → ((k : AssemblyKey) → member k ks ≡ true → contains k s.groups ≡ true)
      → Present s.groups ks
  member-Present [] h = tt
  member-Present (k ∷ ks) h =
      (h k (ground (arith, key_beq_iff k k)), member-Present ks (λ j m. h j (ground arith)))

  pub expired_keys-contained :
      (k : AssemblyKey) → member k (expired_keys now s) ≡ true → contains k s.groups ≡ true
  expired_keys-contained k m = ground (arith, member-expired_keys k)

  -- On a table without repeated keys, `cleanup_expired` raises nothing and returns the stale keys,
  -- sorted; it leaves exactly the groups that are not stale, in their order, and `expired` grows by
  -- the number of the keys.
  pub cleanup_expired_lem : cleanup_expired now s ≡ (ok (expired_keys now s), cleaned_up now s)
  unfolding cleanup_expired
  cleanup_expired_lem =
      rw
        (
          expire_groups-expire_all (expired_keys now s) s u
              (Unique-sorted key_ltb (select_keys (is_stale s.timeout now) s.groups)
                (Unique-select_keys (is_stale s.timeout now) s.groups u))
              (member-Present (expired_keys now s) expired_keys-contained),
          without-reject (is_stale s.timeout now) (expired_keys now s) s.groups
              (λ k g q. member-expired_keys k ∙ (rw q)) u,
        )
        refl

  pub Distinct-live_groups : Distinct (live_groups now s)
  Distinct-live_groups = Distinct-reject (is_stale s.timeout now) s.groups u

  pub lookup-live_groups :
      (k : AssemblyKey)
      → lookup k (live_groups now s) ≡ keep (is_stale s.timeout now) (lookup k s.groups)
  lookup-live_groups k = lookup-reject (is_stale s.timeout now) k s.groups u
