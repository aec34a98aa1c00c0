-- ===== src/Assembler/Opening.antt =====
-- assembler.py: opening the group of an arriving fragment.
use aismixer.Prelude.{
  ℕ, Bool, true, false, none, some, List, [], ◌∷◌, ◌++◌, ◌≡◌, refl, arith, length, ok, Option-cases,
  Bool-cases, inl, inr,
}
use aismixer.Prelude.Dict.{lookup, contains, insert, Distinct}
use aismixer.Assembler.{
  AssemblyKey, key_eq, key_beq_iff, AssemblyGroup, Assembler, is_stale, reaches,
}
use aismixer.Assembler.Cleanup.{dropped, expire_group_present}
use aismixer.Assembler.Capacity.{WithinLimit, Roomy, make_room-Roomy}
use aismixer.Assembler.Discards.{Discards, Discards-nil, Discards-append, Discards-one}
use aismixer.Assembler.Feed.{expire_stale, Opened, empty_group, open_group}

abbrev pub with_group : AssemblyKey → AssemblyGroup → Assembler → Assembler
with_group key group s = record s { groups = insert key group s.groups }

-- The two ways to open the group of `key`: it was there and fresh, or a new one was entered.
pub data Opens (now : ℕ) (key : AssemblyKey) (s : Assembler) (o : Opened) (t : Assembler)
    : Type 0 where
  found :
      (g : AssemblyGroup)
      → lookup key s.groups ≡ some g
      → is_stale s.timeout now g ≡ false
      → o ≡ record { group = g; discarded = []; cleaned = false }
      → t ≡ s
      → Opens now key s o t
  fresh :
      (d : List AssemblyKey) (c : Bool) (m : Assembler)
      → Discards d s m
      → ((g : AssemblyGroup) → lookup key s.groups ≡ some g → is_stale s.timeout now g ≡ true)
      → lookup key m.groups ≡ none
      → reaches m.max_pending_groups (length m.groups) ≡ false
      → o ≡ record { group = empty_group now; discarded = d; cleaned = c }
      → t ≡ with_group key (empty_group now) m
      → Opens now key s o t

pub record Opening (now : ℕ) (key : AssemblyKey) (s : Assembler) : Type 0 where
  pub opened : Opened
  pub after : Assembler
  pub runs : open_group now key s ≡ (ok opened, after)
  pub opens : Opens now key s opened after

module _ (now : ℕ) (key : AssemblyKey) (s : Assembler) (u : Distinct s.groups) where
  -- a new group once `d₁` was discarded on the way to `t`
  open_fresh :
      (d₁ : List AssemblyKey) (t : Assembler)
      → expire_stale now key s ≡ (ok (none, d₁), t)
      → Discards d₁ s t
      → WithinLimit t
      → lookup key t.groups ≡ none
      → ((g : AssemblyGroup) → lookup key s.groups ≡ some g → is_stale s.timeout now g ≡ true)
      → Opening now key s
  unfolding open_group
  open_fresh d₁ t e h w absent old =
      let r : Roomy now t = make_room-Roomy now t h.distinct w in
      record {
        opened = record {
          group = empty_group now;
          discarded = d₁ ++ r.discarded;
          cleaned = r.cleaned;
        };
        after = with_group key (empty_group now) r.after;
        runs = rw (e, r.runs) refl;
        opens =
            fresh (d₁ ++ r.discarded) r.cleaned r.after (Discards-append h r.discards) old
              (ground (arith, r.discards.kept key)) r.room refl refl;
      }

  pub open_group-Opening : WithinLimit s → Opening now key s
  unfolding open_group expire_stale
  open_group-Opening w = elim (Option-cases (lookup key s.groups)) [
    | inl absent ↦
        open_fresh [] s (rw (absent, expire_stale) refl) (Discards-nil s u) w absent
          (λ g q. absurd (ground arith))
    | inr (g, e) ↦ elim (Bool-cases (is_stale s.timeout now g)) [
      | inl stale ↦
          let c : contains key s.groups ≡ true = rw e refl in
          let h =
            Discards-one key s (dropped key s)
              (record { max_fragments_per_group = refl; max_pending_groups = refl; timeout = refl })
              refl refl refl c u in
          open_fresh (key ∷ []) (dropped key s)
            (rw (e, expire_stale, stale, expire_group_present key s c) refl) h
            (record { fits = λ n q. ground (arith, w.fits n q, h.fewer) })
            (ground (arith, h.kept key, key_beq_iff key key)) (λ f q. ground arith)
      | inr live ↦ record {
        opened = record { group = g; discarded = []; cleaned = false };
        after = s;
        runs = rw (e, expire_stale, live) refl;
        opens = found g e live refl refl;
      }
    ]
  ]
