-- ===== src/RoutingControl.antt =====
-- core/routing_control.py and core/runtime_routing.py: replacing and disabling the active routing
-- table. A routing section is taken as the zones and routes that are loaded from it.
pub mod Installed
mod Tests
use aismixer.Prelude.{
  ℕ, Bool, true, false, ◌||◌, not, Option, none, some, List, [], ◌∷◌, Text, text_eq, if◌then◌else◌,
}
use aismixer.Prelude.Dict.{Dict, keys, contains}
use aismixer.Routing.{
  ZoneDefinition, RouteDefinition, RoutingError, unknown_targets, Result, ok, err, ◌>>=◌,
}
use aismixer.Routing.Targets.{
  RoutingTable, add_targets, freeze_target_id_by_name, from_definitions, compile_target_ids,
}
use aismixer.RoutingState.{RoutingSnapshot, UpdateError, Update, updated, refused, replace}

pub record RoutingSection : Type 0 where
  pub zones : Dict Text ZoneDefinition
  pub routes : List RouteDefinition

abbrev any_missing : Dict Text ℕ → List Text → Bool
any_missing ids [] = false
any_missing ids (name ∷ rest) = not (contains name ids) || any_missing ids rest

-- `_validate_available_targets`: a route names a target that is not available
unfoldable pub has_unavailable : Dict Text ℕ → List RouteDefinition → Bool
has_unavailable ids [] = false
has_unavailable ids (route ∷ rest) = any_missing ids route.targets || has_unavailable ids rest

unfoldable pub compile_routing_section : RoutingSection → Dict Text ℕ → Result RoutingTable
unfolding freeze_target_id_by_name from_definitions has_unavailable compile_target_ids
compile_routing_section section target_id_by_name = do
  ids ← freeze_target_id_by_name target_id_by_name
  table ← from_definitions section.zones section.routes
  if has_unavailable ids table.route_definitions
      then err unknown_targets
      else compile_target_ids table ids

-- The section of a configuration may be missing.
unfoldable pub load_optional_routing_table :
    Option RoutingSection → Dict Text ℕ → Result (Option RoutingTable)
unfolding compile_routing_section freeze_target_id_by_name
load_optional_routing_table section target_id_by_name = do
  ids ← freeze_target_id_by_name target_id_by_name
  elim section [
    | none ↦ ok none
    | some given ↦ do table ← compile_routing_section given ids; ok (some table)
  ]

pub record RoutingControlStatus : Type 0 where
  pub generation : ℕ
  pub enabled : Bool
  pub zone_names : List Text
  pub route_names : List Text
  pub target_ids : List Text

pub record RoutingControl : Type 0 where
  pub snapshot : RoutingSnapshot
  pub target_id_by_name : Dict Text ℕ

abbrev names_of : List RouteDefinition → List Text
names_of [] = []
names_of (route ∷ rest) = route.name ∷ names_of rest

-- `_target_ids_from_routes`: each target once, at its first occurrence
unfoldable pub target_ids_from_routes : List RouteDefinition → List Text → List Text
unfolding add_targets
target_ids_from_routes [] targets = targets
target_ids_from_routes (route ∷ rest) targets =
    target_ids_from_routes rest (add_targets targets route.targets)

unfoldable pub status_from_snapshot : RoutingSnapshot → RoutingControlStatus
unfolding target_ids_from_routes
status_from_snapshot snapshot = elim snapshot.table [
  | none ↦ record {
    generation = snapshot.generation;
    enabled = false;
    zone_names = [];
    route_names = [];
    target_ids = [];
  }
  | some table ↦ record {
    generation = snapshot.generation;
    enabled = true;
    zone_names = keys table.resolved_zones;
    route_names = names_of table.route_definitions;
    target_ids = target_ids_from_routes table.route_definitions [];
  }
]

-- The status, or what is raised: for the candidate, or by the state.
pub data ControlAnswer : Type 0 where
  installed : RoutingControlStatus → ControlAnswer
  candidate_rejected : RoutingError → ControlAnswer
  update_refused : UpdateError → ControlAnswer

abbrev pub answer_of : Update → ControlAnswer
answer_of (updated snapshot) = installed (status_from_snapshot snapshot)
answer_of (refused e) = update_refused e

unfoldable pub install :
    Option RoutingTable → Option ℕ → RoutingControl → ControlAnswer × RoutingControl
unfolding replace
install table expected control =
    let (update, snapshot) = replace table expected control.snapshot in
    (answer_of update, record control { snapshot = snapshot })

unfoldable pub replace_from_config :
    RoutingSection → Option ℕ → RoutingControl → ControlAnswer × RoutingControl
unfolding compile_routing_section install
replace_from_config section expected control =
    elim (compile_routing_section section control.target_id_by_name) [
      | err e ↦ (candidate_rejected e, control)
      | ok table ↦ install (some table) expected control
    ]

unfoldable pub disable : Option ℕ → RoutingControl → ControlAnswer × RoutingControl
unfolding install
disable expected control = install none expected control
