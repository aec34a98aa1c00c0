-- ===== src/RoutingControl/Installed.antt =====
-- core/routing_control.py: the table that `replace_from_config` installs, beside the given section.
use aismixer.Prelude.{
  ℕ, ◌+◌, List, [], ◌∷◌, sym, ap, ◌∙◌, text_eq, Bool, true, false, Option, some, ◌≡◌, ◌⊎◌, inl, inr,
  refl, arith, Text, Bool-cases,
}
use aismixer.Prelude.Dict.{Dict, lookup, Distinct}
use aismixer.Routing.{ZoneDefinition, RouteDefinition, Result, ok, err, >>=-eq-ok}
use aismixer.Routing.Zones.{resolve_zones}
use aismixer.Routing.Frozen.{freeze_target_id_by_name-lookup}
use aismixer.Routing.Targets.{
  RoutingTable, freeze_target_id_by_name, from_definitions, validate_route_zones, make_table,
  all_known, compile_target_ids,
}
use aismixer.Routing.Plan.{Numbers, SameTargets, compile_target_ids-SameTargets}
use aismixer.RoutingState.{replace, is_stale, is_valid_table}
use aismixer.RoutingControl.{
  RoutingSection, has_unavailable, compile_routing_section, RoutingControl, RoutingControlStatus,
  status_from_snapshot, installed, install, replace_from_config,
}

-- The table has the section's routes and the resolved zones of the section, and its plan sends every
-- source to the numbers, of the available targets, of the targets that the routes name for it.
pub record Implements (section : RoutingSection) (given : Dict Text ℕ) (table : RoutingTable)
    : Type 0 where
  pub routes : table.route_definitions ≡ section.routes
  pub zones : resolve_zones section.zones ≡ ok table.resolved_zones
  pub targets : (source : Text) → SameTargets given table source

-- The numbers of names depend on what the dict answers alone.
Numbers-same :
    (ids given : Dict Text ℕ) (names : List Text) (ns : List ℕ)
    → ((a : Text) → lookup a ids ≡ lookup a given)
    → Numbers ids names ns
    → Numbers given names ns
Numbers-same ids given [] [] same h = tt
Numbers-same ids given [] (n ∷ ns) same h = h
Numbers-same ids given (a ∷ names) [] same h = h
Numbers-same ids given (a ∷ names) (n ∷ ns) same h =
    (sym (same a) ∙ h.0, Numbers-same ids given names ns same h.1)

SameTargets-same :
    (ids given : Dict Text ℕ) (table : RoutingTable) (source : Text)
    → ((a : Text) → lookup a ids ≡ lookup a given)
    → SameTargets ids table source
    → SameTargets given table source
SameTargets-same ids given table source same h = record {
  by_name = h.by_name;
  by_number = h.by_number;
  named = h.named;
  numbered = h.numbered;
  agree = Numbers-same ids given h.by_name.target_ids h.by_number same h.agree;
}

from_definitions-made :
    (zones : Dict Text ZoneDefinition) (routes : List RouteDefinition) (made : RoutingTable)
    → from_definitions zones routes ≡ ok made
    → (resolve_zones zones ≡ ok made.resolved_zones) × (made.route_definitions ≡ routes)
unfolding from_definitions make_table
from_definitions-made zones routes made h =
    let (resolved, e, h') = >>=-eq-ok (resolve_zones zones) _ h in
    let (_, v, h'') = >>=-eq-ok (validate_route_zones resolved routes) _ h' in
    ground (arith, e, h'')

compile_target_ids-kept :
    (table compiled : RoutingTable) (given : Dict Text ℕ)
    → compile_target_ids table given ≡ ok compiled
    → (compiled.resolved_zones ≡ table.resolved_zones)
      × (compiled.route_definitions ≡ table.route_definitions)
unfolding compile_target_ids make_table
compile_target_ids-kept table compiled given h =
    let (ids, frozen, h') = >>=-eq-ok (freeze_target_id_by_name given) _ h in
    elim (Bool-cases (all_known ids table.route_definitions)) [
      | inr some_unknown ↦ absurd (ground arith)
      | inl known ↦
          let (fresh, made, h'') =
            >>=-eq-ok (make_table table.resolved_zones table.route_definitions) _
              (rw known at h') in
          let (_, v, made') =
            >>=-eq-ok (validate_route_zones table.resolved_zones table.route_definitions) _ made in
          ground (arith, made', h'')
    ]

compile_routing_section-Implements :
    (section : RoutingSection) (given : Dict Text ℕ) (table : RoutingTable)
    → Distinct given
    → compile_routing_section section given ≡ ok table
    → Implements section given table
unfolding compile_routing_section
compile_routing_section-Implements section given table u h =
    let (ids, frozen, h') = >>=-eq-ok (freeze_target_id_by_name given) _ h in
    let (made, e, h'') = >>=-eq-ok (from_definitions section.zones section.routes) _ h' in
    let (distinct, same) = freeze_target_id_by_name-lookup given ids u frozen in
    elim (Bool-cases (has_unavailable ids made.route_definitions)) [
      | inl bad ↦ absurd (ground arith)
      | inr all ↦
          let compiled : compile_target_ids made ids ≡ ok table = rw all at h'' in
          let (zones, routes) = from_definitions-made section.zones section.routes made e in
          let (kept_zones, kept_routes) = compile_target_ids-kept made table ids compiled in
          record {
            routes = kept_routes ∙ routes;
            zones = zones ∙ ap ok (sym kept_zones);
            targets = λ source.
                let (numbers, again, targets) =
                  compile_target_ids-SameTargets made table ids source compiled in
                let (_, same') = freeze_target_id_by_name-lookup ids numbers distinct again in
                SameTargets-same numbers given table source (λ a. same' a ∙ same a) targets;
          }
    ]

abbrev is_ok : {A : Type 0} → Result A → Bool
is_ok (ok a) = true
is_ok (err e) = false

result_cases : {A : Type 0} (r : Result A) → ((a : A) × (r ≡ ok a)) ⊎ (is_ok r ≡ false)
result_cases (ok a) = inl (a, refl)
result_cases (err e) = inr refl

install_lem :
    (table : RoutingTable) (expected : Option ℕ) (control : RoutingControl)
    (status : RoutingControlStatus) (after : RoutingControl)
    → install (some table) expected control ≡ (installed status, after)
    → (after.snapshot ≡ record { generation = control.snapshot.generation + 1; table = some table })
      × (status ≡ status_from_snapshot after.snapshot)
unfolding install replace
install_lem table expected control status after h =
    elim (Bool-cases (is_valid_table (some table))) [
      | inr no_plan ↦ absurd (ground arith)
      | inl valid ↦ elim (Bool-cases (is_stale expected control.snapshot)) [
        | inl stale ↦ absurd (ground arith)
        | inr fresh ↦ ground arith
      ]
    ]

-- If the control's dict of target numbers has no key twice and `replace_from_config` returns a
-- status, the state holds the next generation with a table of the given section: the section's
-- routes, its zones resolved, and a plan that sends every source to the targets that the routes name
-- for it, by the numbers of that dict, in the same order; and the status describes that snapshot.
pub replace_from_config-installed :
    (section : RoutingSection) (expected : Option ℕ) (control : RoutingControl)
    (status : RoutingControlStatus) (after : RoutingControl)
    → Distinct control.target_id_by_name
    → replace_from_config section expected control ≡ (installed status, after)
    → (table : RoutingTable) × (after.snapshot
        ≡ record { generation = control.snapshot.generation + 1; table = some table })
      × (status ≡ status_from_snapshot after.snapshot)
      × Implements section control.target_id_by_name table
unfolding replace_from_config
replace_from_config-installed section expected control status after u h =
    elim (result_cases (compile_routing_section section control.target_id_by_name)) [
      | inl (table, e) ↦
          let (snapshot, described) =
            install_lem table expected control status after (rw (e, replace_from_config) at h) in
          (
            table,
            snapshot,
            described,
            compile_routing_section-Implements section control.target_id_by_name table u e,
          )
      | inr rejected ↦ absurd (ground arith)
    ]
