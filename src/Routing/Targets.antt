-- ===== src/Routing/Targets.antt =====
-- core/routing.py: matching a source against ordered routes, by name and by the compiled plan of
-- numeric targets; core/target_identity.py: the checked mapping of names to numbers.
use aismixer.Prelude.{
  ℕ, Bool, true, false, Option, none, some, List, [], ◌∷◌, ◌++◌, Text, Eq, nat_eq, text_eq, member,
  if◌then◌else◌, is_some,
}
use aismixer.Prelude.Dict.{Dict, lookup, contains, insert}
use aismixer.Routing.{
  ZoneDefinition, RouteDefinition, RoutingResult, unknown_route_zone, unknown_targets,
  empty_target_name, shared_target_id, no_target_plan, Result, ok, err, ◌>>=◌,
}
use aismixer.Routing.Zones.{Resolved, resolve_zones}

-- The inner loop of both matchers: each target once, at its first occurrence. What stands in
-- `seen_targets` is what stands in the result.
unfoldable pub add_targets {ℓ} : {A : Type ℓ} ⦃e : Eq A⦄ → List A → List A → List A
add_targets acc [] = acc
add_targets acc (t ∷ rest) = add_targets (if member t acc then acc else acc ++ t ∷ []) rest

unfoldable pub match_loop :
    Text → Resolved → List RouteDefinition → List Text → List Text → Result RoutingResult
unfolding add_targets
match_loop source_id zones [] names targets =
    ok (record { route_names = names; target_ids = targets })
match_loop source_id zones (route ∷ rest) names targets = elim (lookup route.from_zone zones) [
  | none ↦ err (unknown_route_zone route.name route.from_zone)
  | some sources ↦
      if member source_id sources
      then match_loop source_id zones rest (names ++ route.name ∷ [])
          (add_targets targets route.targets)
      else match_loop source_id zones rest names targets
]

unfoldable pub match_routes : Text → Resolved → List RouteDefinition → Result RoutingResult
unfolding match_loop
match_routes source_id zones routes = match_loop source_id zones routes [] []

pub record TargetRoute : Type 0 where
  pub source_ids : List Text
  pub numeric_ids : List ℕ

pub record RoutingTable : Type 0 where
  pub resolved_zones : Resolved
  pub route_definitions : List RouteDefinition
  pub compiled : Option (List TargetRoute)

-- `_validate_route_zone_references`
unfoldable pub validate_route_zones : Resolved → List RouteDefinition → Result (Unit {0})
validate_route_zones zones [] = ok tt
validate_route_zones zones (route ∷ rest) =
    if contains route.from_zone zones
    then validate_route_zones zones rest
    else err (unknown_route_zone route.name route.from_zone)

-- the constructor, `__post_init__` included: a new table has no plan
unfoldable pub make_table : Resolved → List RouteDefinition → Result RoutingTable
unfolding validate_route_zones
make_table zones routes = do
  _ ← validate_route_zones zones routes
  ok (record { resolved_zones = zones; route_definitions = routes; compiled = none })

-- `from_definitions`, and `from_config` on definitions that are loaded
unfoldable pub from_definitions :
    Dict Text ZoneDefinition → List RouteDefinition → Result RoutingTable
unfolding make_table resolve_zones
from_definitions zones routes = do resolved ← resolve_zones zones; make_table resolved routes

abbrev pub match_source : RoutingTable → Text → Result RoutingResult
match_source table source_id = match_routes source_id table.resolved_zones table.route_definitions

-- the loop of `freeze_target_id_by_name`: what is copied, and the name of each number
unfoldable pub freeze_loop : List (Text × ℕ) → Dict Text ℕ → Dict ℕ Text → Result (Dict Text ℕ)
freeze_loop [] copied name_by_id = ok copied
freeze_loop (([], target_id) ∷ rest) copied name_by_id = err empty_target_name
freeze_loop ((c ∷ name, target_id) ∷ rest) copied name_by_id = elim (lookup target_id name_by_id) [
  | some previous ↦ err (shared_target_id target_id previous (c ∷ name))
  | none ↦
      freeze_loop rest (insert (c ∷ name) target_id copied) (insert target_id (c ∷ name) name_by_id)
]

unfoldable pub freeze_target_id_by_name : Dict Text ℕ → Result (Dict Text ℕ)
unfolding freeze_loop
freeze_target_id_by_name target_id_by_name = freeze_loop target_id_by_name [] []

-- the numbers of the names; `none` if one is unknown
unfoldable pub numeric_targets : Dict Text ℕ → List Text → Option (List ℕ)
numeric_targets ids [] = some []
numeric_targets ids (name ∷ rest) = elim (lookup name ids) [
  | none ↦ none
  | some target ↦ elim (numeric_targets ids rest) [
    | none ↦ none
    | some targets ↦ some (target ∷ targets)
  ]
]

-- every target of every route has a number
unfoldable pub all_known : Dict Text ℕ → List RouteDefinition → Bool
unfolding numeric_targets
all_known ids [] = true
all_known ids (route ∷ rest) =
    if is_some (numeric_targets ids route.targets) then all_known ids rest else false

-- The plan, route by route. A route whose zone or target has no entry cannot occur here: the
-- constructor and `all_known` came first.
unfoldable pub compile_routes :
    Dict Text ℕ → Resolved → List RouteDefinition → Option (List TargetRoute)
unfolding numeric_targets
compile_routes ids zones [] = some []
compile_routes ids zones (route ∷ rest) = elim (lookup route.from_zone zones) [
  | none ↦ none
  | some sources ↦ elim (numeric_targets ids route.targets) [
    | none ↦ none
    | some targets ↦ elim (compile_routes ids zones rest) [
      | none ↦ none
      | some routes ↦ some (record { source_ids = sources; numeric_ids = targets } ∷ routes)
    ]
  ]
]

unfoldable pub compile_target_ids : RoutingTable → Dict Text ℕ → Result RoutingTable
unfolding freeze_target_id_by_name all_known compile_routes make_table
compile_target_ids table target_id_by_name = do
  ids ← freeze_target_id_by_name target_id_by_name
  if all_known ids table.route_definitions
      then (do
        fresh ← make_table table.resolved_zones table.route_definitions
        ok (record fresh {
          compiled = compile_routes ids table.resolved_zones table.route_definitions;
        }))
      else err unknown_targets

unfoldable pub match_plan : Text → List TargetRoute → List ℕ → List ℕ
unfolding add_targets
match_plan source_id [] targets = targets
match_plan source_id (route ∷ rest) targets =
    match_plan source_id rest
      (if member source_id route.source_ids then add_targets targets route.numeric_ids else targets)

unfoldable pub match_target_ids : RoutingTable → Text → Result (List ℕ)
unfolding match_plan
match_target_ids table source_id = elim table.compiled [
  | none ↦ err no_target_plan
  | some routes ↦ ok (match_plan source_id routes [])
]
