-- ===== src/Assembler/Ordinals.antt =====
-- assembler.py: where `_feed_validated_fragment` counts the fragments and reads them in order.
use native.Mathlib.Nat.{add-zero, add-suc, suc-add}
use aismixer.Prelude.{
  ℕ, zero, suc, ◌+◌, ◌≤◌, ◌<◌, true, none, List, [], ◌∷◌, ◌≡◌, refl, arith, ◌==◌, nat_eq,
  nat_beq_iff, length, get_elem?, Text, ok, Option-cases, Bool-cases, inl, inr, is_some-get,
}
use aismixer.Prelude.Dict.{
  Dict, lookup, contains, insert, remove, Distinct, lookup-insert, lookup-remove, Distinct-insert,
  Distinct-remove, length-remove,
}
use aismixer.Assembler.{Assembler}
use aismixer.Assembler.Feed.{collect}

-- The ordinals of a group, each once, between 1 and the bound.
pub record Ordinals (bound : ℕ) (d : Dict ℕ Text) : Type 0 where
  pub distinct : Distinct d
  pub range : (i : ℕ) → contains i d ≡ true → (1 ≤ i) × (i ≤ bound)

pub Ordinals-nil : (n : ℕ) → Ordinals n []
unfolding lookup
Ordinals-nil n = record { distinct = tt; range = λ i h. ground arith }

pub Ordinals-insert :
    (n i : ℕ) (line : Text) (d : Dict ℕ Text)
    → 1 ≤ i
    → i ≤ n
    → Ordinals n d
    → Ordinals n (insert i line d)
Ordinals-insert n i line d lo hi o = record {
  distinct = Distinct-insert i line d o.distinct;
  range = λ j h. ground (arith, lookup-insert i j line d, o.range j);
}

Ordinals-remove : (n : ℕ) (d : Dict ℕ Text) → Ordinals (suc n) d → Ordinals n (remove (suc n) d)
Ordinals-remove n d o = record {
  distinct = Distinct-remove (suc n) d o.distinct;
  range = λ i h. ground (arith, lookup-remove (suc n) i d o.distinct, o.range i);
}

length_of_none : (d : Dict ℕ Text) → Ordinals 0 d → length d ≡ 0
unfolding lookup
length_of_none [] o = refl
length_of_none ((k, v) ∷ d) o = absurd (ground (arith, o.range k))

-- No more fragments than ordinals.
pub length-Ordinals-le : (n : ℕ) (d : Dict ℕ Text) → Ordinals n d → length d ≤ n
length-Ordinals-le zero d o = omega (arith, length_of_none d o)
length-Ordinals-le (suc n) d o = ground (
  arith,
  length-Ordinals-le n (remove (suc n) d) (Ordinals-remove n d o),
  length-remove (suc n) d,
)

Ordinals-narrow :
    (n : ℕ) (d : Dict ℕ Text) → Ordinals (suc n) d → lookup (suc n) d ≡ none → Ordinals n d
Ordinals-narrow n d o h = record {
  distinct = o.distinct;
  range = λ i c. elim (Bool-cases (i == suc n)) [
    | inl e ↦ absurd (ground (arith, nat_beq_iff i (suc n)))
    | inr ne ↦ ground (arith, o.range i, nat_beq_iff i (suc n))
  ];
}

-- As many fragments as ordinals: each ordinal is there.
pub Ordinals-full :
    (n i : ℕ) (d : Dict ℕ Text) → Ordinals n d → length d ≡ n → 1 ≤ i → i ≤ n → contains i d ≡ true
Ordinals-full zero i d o e lo hi = absurd (omega arith)
Ordinals-full (suc n) i d o e lo hi = elim (Option-cases (lookup (suc n) d)) [
  | inl absent ↦ absurd (omega (arith, length-Ordinals-le n d (Ordinals-narrow n d o absent)))
  | inr (v, q) ↦ ground (
    arith,
    Ordinals-full n i (remove (suc n) d) (Ordinals-remove n d o),
    length-remove (suc n) d,
    lookup-remove (suc n) i d o.distinct,
    nat_beq_iff (suc n) i,
  )
]

-- What `collect` reads: the fragments from `index` on, in order.
pub record Collected (d : Dict ℕ Text) (index count : ℕ) (s : Assembler) : Type 0 where
  pub lines : List Text
  pub runs : collect d index count s ≡ (ok lines, s)
  pub complete : length lines ≡ count
  pub in_order : (i : ℕ) → i < count → get_elem? lines i ≡ lookup (index + i) d

pub collect-Collected :
    (d : Dict ℕ Text) (index count : ℕ) (s : Assembler)
    → ((i : ℕ) → index ≤ i → i < index + count → contains i d ≡ true)
    → Collected d index count s
unfolding collect
collect-Collected d index zero s h = record {
  lines = [];
  runs = refl;
  complete = refl;
  in_order = λ i lt. absurd (omega arith);
}
collect-Collected d index (suc count) s h =
    let (line, e) = is_some-get (lookup index d) (h index (omega arith) (omega arith)) in
    let rest =
      collect-Collected d (suc index) count s (λ i lo hi. h i (omega arith) (omega arith)) in
    record {
      lines = line ∷ rest.lines;
      runs = rw (e, collect, rest.runs) refl;
      complete = omega (arith, rest.complete);
      in_order = elim [
        | zero ↦ λ lt. rw (add-zero, e) refl
        | suc i ↦ λ lt. rw (add-suc, ← suc-add) (rest.in_order i (omega arith))
      ];
    }
