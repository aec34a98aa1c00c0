-- ===== src/Routing/Zones.antt =====
-- core/routing.py: resolution of named zone expressions into sets of source IDs. A frozen set is a
-- list, of which only membership is observed.
pub mod Meaning
pub mod Sound
pub mod Depth
use aismixer.Prelude.{
  ℕ, zero, suc, Bool, true, false, ◌&&◌, ◌||◌, not, Option, none, some, List, [], ◌∷◌, ◌++◌, Text,
  text_eq, ◌==◌, member, length, if◌then◌else◌, drop,
}
use aismixer.Prelude.Dict.{Dict, keys, lookup, contains, insert}
use aismixer.Prelude.Order.{sorted, text_ltb}
use aismixer.Routing.{
  ZoneDefinition, RoutingError, not_one_expression, unknown_zone, circular_reference, out_of_fuel,
  Result, ok, err, ◌>>=◌,
}

pub data Operation : Type 0 where
  include union intersection difference : Operation

unfoldable pub given : Operation → Option (List Text) → List (Operation × List Text)
given op none = []
given op (some values) = (op, values) ∷ []

-- `_zone_expression`: exactly one of the four fields must be given.
unfoldable pub expressions : ZoneDefinition → List (Operation × List Text)
unfolding given
expressions d =
    given include d.include_ids
    ++ (given union d.union_of
        ++ (given intersection d.intersection_of ++ given difference d.difference_of))

unfoldable pub only_expression :
    Text → List (Operation × List Text) → Result (Operation × List Text)
only_expression zone_name (x ∷ []) = ok x
only_expression zone_name _ = err (not_one_expression zone_name)

unfoldable pub zone_expression : Text → ZoneDefinition → Result (Operation × List Text)
unfolding expressions only_expression
zone_expression zone_name definition = only_expression zone_name (expressions definition)

-- `a & b` and `a - b` on frozen sets
unfoldable pub set_intersection : List Text → List Text → List Text
set_intersection [] ys = []
set_intersection (x ∷ xs) ys =
    let rest = set_intersection xs ys in if member x ys then x ∷ rest else rest

unfoldable pub set_difference : List Text → List Text → List Text
set_difference [] ys = []
set_difference (x ∷ xs) ys =
    let rest = set_difference xs ys in if member x ys then rest else x ∷ rest

unfoldable pub union_all : List (List Text) → List Text
union_all [] = []
union_all (x ∷ xs) = x ++ union_all xs

unfoldable pub intersect_from : List Text → List (List Text) → List Text
unfolding set_intersection
intersect_from acc [] = acc
intersect_from acc (x ∷ xs) = intersect_from (set_intersection acc x) xs

unfoldable pub subtract_from : List Text → List (List Text) → List Text
unfolding set_difference
subtract_from acc [] = acc
subtract_from acc (x ∷ xs) = subtract_from (set_difference acc x) xs

-- `_apply_operation`; it is called for the three set operations alone
unfoldable pub apply_operation : Operation → List (List Text) → List Text
unfolding union_all intersect_from subtract_from
apply_operation op [] = []
apply_operation union (x ∷ xs) = union_all (x ∷ xs)
apply_operation intersection (x ∷ xs) = intersect_from x xs
apply_operation difference (x ∷ xs) = subtract_from x xs
apply_operation include (x ∷ xs) = []

abbrev pub Resolved : Type 0
Resolved = Dict Text (List Text)

-- `[resolve(reference, next_path) for reference in values]`, over the shared table
unfoldable pub resolve_each :
    (Text → Resolved → Result (List Text × Resolved))
    → List Text
    → Resolved
    → Result (List (List Text) × Resolved)
resolve_each resolve [] resolved = ok ([], resolved)
resolve_each resolve (reference ∷ rest) resolved = do
  (operand, r) ← resolve reference resolved
  (operands, r') ← resolve_each resolve rest r
  ok (operand ∷ operands, r')

-- the last name of the path, if there is one
unfoldable pub last_of : List Text → Option Text
last_of [] = none
last_of (x ∷ []) = some x
last_of (x ∷ y ∷ rest) = last_of (y ∷ rest)

-- the path from the first occurrence of the name on
unfoldable pub from_first : Text → List Text → List Text
from_first name [] = []
from_first name (x ∷ rest) =
    let later = from_first name rest in if x == name then x ∷ rest else later

-- What a name's expression gives: its values, or the operation on its resolved operands.
unfoldable pub evaluate :
    (Text → Resolved → Result (List Text × Resolved))
    → Operation × List Text
    → Resolved
    → Result (List Text × Resolved)
unfolding resolve_each apply_operation
evaluate resolve (include, values) resolved = ok (values, resolved)
evaluate resolve (op, values) resolved = do
  (operands, r) ← resolve_each resolve values resolved
  ok (apply_operation op operands, r)

-- The inner `resolve`. The path grows by a defined name at each level, so the number of
-- definitions bounds the depth.
unfoldable pub resolve :
    Dict Text ZoneDefinition → ℕ → Text → List Text → Resolved → Result (List Text × Resolved)
unfolding zone_expression evaluate last_of from_first
resolve definitions zero zone_name path resolved = err out_of_fuel
resolve definitions (suc fuel) zone_name path resolved =
    let inner : Text → Resolved → Result (List Text × Resolved) =
      λ reference r. resolve definitions fuel reference (path ++ zone_name ∷ []) r in
    elim (lookup zone_name resolved) [
      | some found ↦ ok (found, resolved)
      | none ↦ elim (lookup zone_name definitions) [
        | none ↦ err (unknown_zone (last_of path) zone_name)
        | some definition ↦
            if member zone_name path
            then err (circular_reference (from_first zone_name path ++ zone_name ∷ []))
            else (do
              expression ← zone_expression zone_name definition
              (result, r) ← evaluate inner expression resolved
              ok (result, insert zone_name result r))
      ]
    ]

-- `for name in sorted(definitions): resolve(name, ())`
unfoldable pub resolve_names : Dict Text ZoneDefinition → List Text → Resolved → Result Resolved
unfolding resolve
resolve_names definitions [] resolved = ok resolved
resolve_names definitions (name ∷ rest) resolved = do
  (_, r) ← resolve definitions (suc (length definitions)) name [] resolved
  resolve_names definitions rest r

-- `{name: resolved[name] for name in sorted(resolved)}`
unfoldable pub in_order : List Text → Resolved → Resolved
in_order [] resolved = []
in_order (name ∷ rest) resolved = elim (lookup name resolved) [
  | none ↦ in_order rest resolved
  | some set ↦ (name, set) ∷ in_order rest resolved
]

unfoldable pub resolve_zones : Dict Text ZoneDefinition → Result Resolved
unfolding resolve_names in_order
resolve_zones definitions = do
  resolved ← resolve_names definitions (sorted text_ltb (keys definitions)) []
  ok (in_order (sorted text_ltb (keys resolved)) resolved)
