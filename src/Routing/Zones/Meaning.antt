-- ===== src/Routing/Zones/Meaning.antt =====
-- core/routing.py: what a zone expression means, and `_zone_expression` and `_apply_operation`.
use aismixer.Prelude.{
  Bool, true, false, ◌&&◌, ◌||◌, not, Option, none, some, List, [], ◌∷◌, ◌≡◌, refl, arith, Text,
  nat_eq, text_eq, list_beq_iff, member, member-append,
}
use aismixer.Prelude.Dict.{Dict, lookup}
use aismixer.Routing.{ZoneDefinition, ok}
use aismixer.Routing.Zones.{
  Operation, include, union, intersection, difference, given, expressions, only_expression,
  zone_expression, set_intersection, set_difference, union_all, intersect_from, subtract_from,
  apply_operation, Resolved,
}

-- The sets of the references, in order.
abbrev pub Operands : Resolved → List Text → List (List Text) → Type 0
Operands r [] [] = Unit
Operands r [] (x ∷ xs) = ⊥
Operands r (v ∷ vs) [] = ⊥
Operands r (v ∷ vs) (x ∷ xs) = (lookup v r ≡ some x) × Operands r vs xs

-- The source IDs of a union are those of at least one operand; those of an intersection are in
-- every operand, and there is one; those of a difference are in the first operand and in no later one.
abbrev pub in_some : Text → List (List Text) → Bool
in_some a [] = false
in_some a (x ∷ xs) = member a x || in_some a xs

abbrev pub in_every : Text → List (List Text) → Bool
in_every a [] = true
in_every a (x ∷ xs) = member a x && in_every a xs

abbrev pub in_all : Text → List (List Text) → Bool
in_all a [] = false
in_all a (x ∷ xs) = in_every a (x ∷ xs)

abbrev pub in_first_only : Text → List (List Text) → Bool
in_first_only a [] = false
in_first_only a (x ∷ xs) = member a x && not (in_some a xs)

-- One of the four fields of a definition is given, with these values; the other three are not.
abbrev pub Only : (a b c d : Option (List Text)) → List Text → Type 0
Only a b c d values = (a ≡ some values) × (b ≡ none) × (c ≡ none) × (d ≡ none)

-- The set is what the zone's one expression says: the listed source IDs, or those in the union, the
-- intersection or the difference of the sets of the referenced zones.
pub data Means (definitions : Dict Text ZoneDefinition) (r : Resolved) (name : Text)
    (set : List Text) : Type 0 where
  included :
      (d : ZoneDefinition)
      → lookup name definitions ≡ some d
      → Only d.include_ids d.union_of d.intersection_of d.difference_of set
      → Means definitions r name set
  united :
      (d : ZoneDefinition) (references : List Text) (operands : List (List Text))
      → lookup name definitions ≡ some d
      → Only d.union_of d.include_ids d.intersection_of d.difference_of references
      → Operands r references operands
      → ((a : Text) → member a set ≡ in_some a operands)
      → Means definitions r name set
  intersected :
      (d : ZoneDefinition) (references : List Text) (operands : List (List Text))
      → lookup name definitions ≡ some d
      → Only d.intersection_of d.include_ids d.union_of d.difference_of references
      → Operands r references operands
      → ((a : Text) → member a set ≡ in_all a operands)
      → Means definitions r name set
  subtracted :
      (d : ZoneDefinition) (references : List Text) (operands : List (List Text))
      → lookup name definitions ≡ some d
      → Only d.difference_of d.include_ids d.union_of d.intersection_of references
      → Operands r references operands
      → ((a : Text) → member a set ≡ in_first_only a operands)
      → Means definitions r name set

-- what the field of an operation is, for the expression that is found
abbrev pub OnlyOf : Operation → ZoneDefinition → List Text → Type 0
OnlyOf include d values = Only d.include_ids d.union_of d.intersection_of d.difference_of values
OnlyOf union d values = Only d.union_of d.include_ids d.intersection_of d.difference_of values
OnlyOf intersection d values =
    Only d.intersection_of d.include_ids d.union_of d.difference_of values
OnlyOf difference d values = Only d.difference_of d.include_ids d.union_of d.intersection_of values

pub zone_expression-OnlyOf :
    (name : Text) (d : ZoneDefinition) (op : Operation) (values : List Text)
    → zone_expression name d ≡ ok (op, values)
    → OnlyOf op d values
unfolding zone_expression expressions given only_expression
zone_expression-OnlyOf name d include values h = ground arith
zone_expression-OnlyOf name d union values h = ground arith
zone_expression-OnlyOf name d intersection values h = ground arith
zone_expression-OnlyOf name d difference values h = ground arith

member-union_all : (a : Text) (xs : List (List Text)) → member a (union_all xs) ≡ in_some a xs
unfolding union_all
member-union_all a [] = refl
member-union_all a (x ∷ xs) =
    ground (arith, member-union_all a xs, member-append a x (union_all xs))

member-set_intersection :
    (a : Text) (xs ys : List Text)
    → member a (set_intersection xs ys) ≡ (member a xs && member a ys)
unfolding set_intersection
member-set_intersection a [] ys = refl
member-set_intersection a (x ∷ xs) ys =
    ground (arith, member-set_intersection a xs ys, list_beq_iff x a)

member-set_difference :
    (a : Text) (xs ys : List Text)
    → member a (set_difference xs ys) ≡ (member a xs && not (member a ys))
unfolding set_difference
member-set_difference a [] ys = refl
member-set_difference a (x ∷ xs) ys =
    ground (arith, member-set_difference a xs ys, list_beq_iff x a)

member-intersect_from :
    (a : Text) (acc : List Text) (xs : List (List Text))
    → member a (intersect_from acc xs) ≡ (member a acc && in_every a xs)
unfolding intersect_from
member-intersect_from a acc [] = ground arith
member-intersect_from a acc (x ∷ xs) =
    ground
      (arith, member-intersect_from a (set_intersection acc x) xs, member-set_intersection a acc x)

member-subtract_from :
    (a : Text) (acc : List Text) (xs : List (List Text))
    → member a (subtract_from acc xs) ≡ (member a acc && not (in_some a xs))
unfolding subtract_from
member-subtract_from a acc [] = ground arith
member-subtract_from a acc (x ∷ xs) =
    ground (arith, member-subtract_from a (set_difference acc x) xs, member-set_difference a acc x)

pub apply-union :
    (a : Text) (xs : List (List Text)) → member a (apply_operation union xs) ≡ in_some a xs
unfolding apply_operation
apply-union a [] = refl
apply-union a (x ∷ xs) = member-union_all a (x ∷ xs)

pub apply-intersection :
    (a : Text) (xs : List (List Text)) → member a (apply_operation intersection xs) ≡ in_all a xs
unfolding apply_operation
apply-intersection a [] = refl
apply-intersection a (x ∷ xs) = member-intersect_from a x xs

pub apply-difference :
    (a : Text) (xs : List (List Text))
    → member a (apply_operation difference xs) ≡ in_first_only a xs
unfolding apply_operation
apply-difference a [] = refl
apply-difference a (x ∷ xs) = member-subtract_from a x xs
