-- ===== src/Assembler/Discards.antt =====
-- assembler.py: the steps that discard groups, and the keys they report.
use aismixer.Prelude.{
  ℕ, ◌≤◌, Bool, true, none, List, [], ◌∷◌, ◌++◌, ◌≡◌, refl, ◌∙◌, arith, if◌then◌else◌, length,
  member, member-append,
}
use aismixer.Prelude.Dict.{
  Dict, lookup, contains, remove, Distinct, lookup-remove, Distinct-remove, length-remove,
}
use aismixer.Prelude.Filter.{reject, length-reject}
use aismixer.Assembler.{
  AssemblyKey, key_eq, key_beq_iff, AssemblyGroup, Assembler, is_stale, sum_received, expired_keys,
}
use aismixer.Assembler.Cleanup.{
  cleaned_up, member-expired_keys, expired_keys-contained, Distinct-live_groups, lookup-live_groups,
}

-- The limits, the timeout and the peaks, which no discarding step touches.
pub record SameSettings (s t : Assembler) : Type 0 where
  pub max_fragments_per_group : t.max_fragments_per_group ≡ s.max_fragments_per_group
  pub max_pending_groups : t.max_pending_groups ≡ s.max_pending_groups
  pub timeout : t.timeout ≡ s.timeout

-- From `s` to `t` the groups of `d` go, and nothing else changes in the table.
pub record Discards (d : List AssemblyKey) (s t : Assembler) : Type 0 where
  pub settings : SameSettings s t
  pub distinct : Distinct t.groups
  pub kept :
      (k : AssemblyKey) → lookup k t.groups ≡ (if member k d then none else lookup k s.groups)
  pub known : (k : AssemblyKey) → member k d ≡ true → contains k s.groups ≡ true
  pub fewer : length t.groups ≤ length s.groups
  pub fewer_fragments : sum_received t.groups ≤ sum_received s.groups
  pub peak_groups : t.peak_groups ≡ s.peak_groups
  pub peak_fragments : t.peak_fragments ≡ s.peak_fragments

pub Discards-nil : (s : Assembler) → Distinct s.groups → Discards [] s s
Discards-nil s u = record {
  settings = record { max_fragments_per_group = refl; max_pending_groups = refl; timeout = refl };
  distinct = u;
  kept = λ k. refl;
  known = λ k m. ground arith;
  fewer = omega arith;
  fewer_fragments = omega arith;
  peak_groups = refl;
  peak_fragments = refl;
}

pub Discards-append :
    {d₁ d₂ : List AssemblyKey} {s t u : Assembler}
    → Discards d₁ s t
    → Discards d₂ t u
    → Discards (d₁ ++ d₂) s u
Discards-append {d₁} {d₂} {s} {t} {u} h₁ h₂ = record {
  settings = record {
    max_fragments_per_group =
        h₂.settings.max_fragments_per_group ∙ h₁.settings.max_fragments_per_group;
    max_pending_groups = h₂.settings.max_pending_groups ∙ h₁.settings.max_pending_groups;
    timeout = h₂.settings.timeout ∙ h₁.settings.timeout;
  };
  distinct = h₂.distinct;
  kept = λ k. ground (arith, member-append k d₁ d₂, h₁.kept k, h₂.kept k);
  known = λ k m. ground (arith, member-append k d₁ d₂, h₁.kept k, h₁.known k, h₂.known k);
  fewer = omega arith;
  fewer_fragments = omega arith;
  peak_groups = h₂.peak_groups ∙ h₁.peak_groups;
  peak_fragments = h₂.peak_fragments ∙ h₁.peak_fragments;
}

sum-reject :
    (p : AssemblyGroup → Bool) (d : Dict AssemblyKey AssemblyGroup)
    → sum_received (reject p d) ≤ sum_received d
unfolding reject
sum-reject p [] = omega arith
sum-reject p ((k, g) ∷ d) = ground (arith, sum-reject p d)

pub sum-remove :
    (k : AssemblyKey) (d : Dict AssemblyKey AssemblyGroup)
    → sum_received (remove k d) ≤ sum_received d
unfolding remove
sum-remove k [] = omega arith
sum-remove k ((j, g) ∷ d) = ground (arith, sum-remove k d)

pub Discards-cleaned_up :
    (now : ℕ) (s : Assembler)
    → Distinct s.groups
    → Discards (expired_keys now s) s (cleaned_up now s)
Discards-cleaned_up now s u = record {
  settings = record { max_fragments_per_group = refl; max_pending_groups = refl; timeout = refl };
  distinct = Distinct-live_groups now s u;
  kept = λ k. ground (arith, member-expired_keys now s u k, lookup-live_groups now s u k);
  known = expired_keys-contained now s u;
  fewer = omega (arith, length-reject (is_stale s.timeout now) s.groups);
  fewer_fragments = sum-reject (is_stale s.timeout now) s.groups;
  peak_groups = refl;
  peak_fragments = refl;
}

-- `s` without the group of one key, whatever counter the removal bumps
pub Discards-one :
    (k : AssemblyKey) (s t : Assembler)
    → SameSettings s t
    → t.groups ≡ remove k s.groups
    → t.peak_groups ≡ s.peak_groups
    → t.peak_fragments ≡ s.peak_fragments
    → contains k s.groups ≡ true
    → Distinct s.groups
    → Discards (k ∷ []) s t
Discards-one k s t same e pg pf c u = record {
  settings = same;
  distinct = rw e (Distinct-remove k s.groups u);
  kept = λ j. rw e (ground (arith, lookup-remove k j s.groups u));
  known = λ j m. ground (arith, key_beq_iff k j);
  fewer = rw e (ground (arith, length-remove k s.groups));
  fewer_fragments = rw e (sum-remove k s.groups);
  peak_groups = pg;
  peak_fragments = pf;
}
