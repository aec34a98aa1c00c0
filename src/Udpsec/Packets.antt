-- ===== src/Udpsec/Packets.antt =====
-- core/udpsec_protocol.py: splitting a packet at the bars and joining its parts.
use aismixer.Prelude.{
  ℕ, false, List, [], ◌∷◌, ◌++◌, ◌≡◌, refl, ◌∙◌, sym, ap, arith, Text, nat_eq, nat_beq, member, All,
  Bool-cases, inl, inr,
}
use aismixer.Udpsec.Bytes.{before_first, split, join}

split_first : (xs rest : Text) → member 124 xs ≡ false → split (xs ++ 124 ∷ rest) ≡ xs ∷ split rest
unfolding split
split_first [] rest h = refl
split_first (x ∷ xs) rest h =
    let other : nat_beq x 124 ≡ false = ground (arith, h) in
    rw (other, split_first xs rest (ground (arith, h))) refl

split_whole : (xs : Text) → member 124 xs ≡ false → split xs ≡ xs ∷ []
unfolding split
split_whole [] h = refl
split_whole (x ∷ xs) h =
    let other : nat_beq x 124 ≡ false = ground (arith, h) in
    rw (other, split_whole xs (ground (arith, h))) refl

-- parts without a bar
abbrev pub IsBarless : Text → Type 0
IsBarless part = member 124 part ≡ false

pub split-join :
    (part : Text) (parts : List Text)
    → IsBarless part
    → All IsBarless parts
    → split (join (part ∷ parts)) ≡ part ∷ parts
unfolding join
split-join part [] h i = split_whole part h
split-join part (next ∷ rest) h i =
    split_first part (join (next ∷ rest)) h ∙ ap (λ ps. part ∷ ps) (split-join next rest i.0 i.1)

join-before_first :
    (c : ℕ) (part : Text) (parts : List Text)
    → join (before_first c (part ∷ parts)) ≡ c ∷ join (part ∷ parts)
unfolding join
join-before_first c part [] = refl
join-before_first c part (next ∷ rest) = refl

-- the first part of a split, and the others
split_parts : (xs : Text) → (part : Text) × (parts : List Text) × (split xs ≡ part ∷ parts)
unfolding split
split_parts [] = ([], [], refl)
split_parts (x ∷ xs) =
    let (part, parts, e) = split_parts xs in
    elim (Bool-cases (nat_beq x 124)) [
      | inl bar ↦ ([], part ∷ parts, rw (bar, e) refl)
      | inr plain ↦ (x ∷ part, parts, rw (plain, e) refl)
    ]

pub join-split : (xs : Text) → join (split xs) ≡ xs
unfolding split join
join-split [] = refl
join-split (x ∷ xs) =
    let (part, parts, e) = split_parts xs in
    let whole : join (part ∷ parts) ≡ xs = ap join (sym e) ∙ join-split xs in
    elim (Bool-cases (nat_beq x 124)) [
      | inl bar ↦ rw (bar, e) (ground (arith, whole, bar))
      | inr plain ↦ rw (plain, e) (join-before_first x part parts ∙ ap (λ ys. x ∷ ys) whole)
    ]
