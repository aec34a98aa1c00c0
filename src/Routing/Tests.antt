-- ===== src/Routing/Tests.antt =====
-- Runs of the resolution and the matchers, and the theorems at inputs that meet their hypotheses.
use aismixer.Prelude.{
  ℕ, true, none, some, List, [], ◌∷◌, ◌≡◌, ◌≢◌, refl, Text, text_eq, codes, nat_eq,
}
use aismixer.Prelude.Dict.{Dict, lookup, contains, insert}
use aismixer.Prelude.Order.{sorted, text_ltb}
use aismixer.Routing.{ZoneDefinition, ok, err, out_of_fuel, circular_reference}
use aismixer.Routing.Zones.{Resolved, resolve_zones}
use aismixer.Routing.Zones.Meaning.{Means}
use aismixer.Routing.Zones.Sound.{resolve_zones-IsSound}
use aismixer.Routing.Zones.Depth.{resolve_zones_fuelled}
use aismixer.Routing.Targets.{RoutingTable, freeze_target_id_by_name, compile_target_ids}
use aismixer.Routing.Plan.{SameTargets, compile_target_ids-SameTargets}

abbrev sources_zone : List Text → ZoneDefinition
sources_zone ids = record {
  include_ids = some ids;
  union_of = none;
  intersection_of = none;
  difference_of = none;
}

abbrev minus_zone : List Text → ZoneDefinition
minus_zone names = record {
  include_ids = none;
  union_of = none;
  intersection_of = none;
  difference_of = some names;
}

abbrev definitions : Dict Text ZoneDefinition
definitions =
    (codes "all", sources_zone (codes "x" ∷ codes "y" ∷ []))
    ∷ (codes "some", minus_zone (codes "all" ∷ codes "not" ∷ []))
    ∷ (codes "not", sources_zone (codes "y" ∷ []))
    ∷ []

abbrev zones : Resolved
zones =
    (codes "all", codes "x" ∷ codes "y" ∷ [])
    ∷ (codes "not", codes "y" ∷ [])
    ∷ (codes "some", codes "x" ∷ [])
    ∷ []

program : Unit {0}
unfolding resolve_zones compile_target_ids sorted text_ltb insert lookup
program = tt

resolved : resolve_zones definitions ≡ ok zones
unfolding program
resolved = refl

abbrev cyclic : Dict Text ZoneDefinition
cyclic = (codes "a", minus_zone (codes "b" ∷ [])) ∷ (codes "b", minus_zone (codes "a" ∷ [])) ∷ []

cyclic_refused :
    resolve_zones cyclic ≡ err (circular_reference (codes "a" ∷ codes "b" ∷ codes "a" ∷ []))
unfolding program
cyclic_refused = refl

resolve_zones-IsSound_example :
    ((name : Text) (set : List Text)
      → lookup name zones ≡ some set
      → Means definitions zones name set)
    × ((name : Text) → contains name definitions ≡ true → contains name zones ≡ true)
resolve_zones-IsSound_example = resolve_zones-IsSound definitions zones resolved

resolve_zones_fuelled_example : resolve_zones cyclic ≢ err out_of_fuel
unfolding program
resolve_zones_fuelled_example = resolve_zones_fuelled cyclic (refl, (refl, tt))

abbrev table : RoutingTable
table = record {
  resolved_zones = zones;
  route_definitions =
      record { name = codes "r"; from_zone = codes "some"; targets = codes "t" ∷ codes "u" ∷ [] }
      ∷ [];
  compiled = none;
}

abbrev numbers : Dict Text ℕ
numbers = (codes "u", 1) ∷ (codes "t", 0) ∷ []

abbrev compiled : RoutingTable
compiled = record table {
  compiled = some (record { source_ids = codes "x" ∷ []; numeric_ids = 0 ∷ 1 ∷ [] } ∷ []);
}

compile_target_ids-SameTargets_example :
    (ids : Dict Text ℕ) × (freeze_target_id_by_name numbers ≡ ok ids)
    × SameTargets ids compiled (codes "x")
unfolding program
compile_target_ids-SameTargets_example =
    compile_target_ids-SameTargets table compiled numbers (codes "x") refl
