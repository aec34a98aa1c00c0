-- ===== src/RoutingControl/Tests.antt =====
-- A run of the control, and the theorem at it.
use aismixer.Prelude.{true, none, some, [], ◌∷◌, ◌≡◌, refl, codes}
use aismixer.Prelude.Dict.{lookup, insert}
use aismixer.Prelude.Order.{sorted}
use aismixer.Routing.Targets.{RoutingTable}
use aismixer.RoutingControl.{
  RoutingSection, RoutingControl, RoutingControlStatus, status_from_snapshot, replace_from_config,
}
use aismixer.RoutingControl.Installed.{Implements, replace_from_config-installed}

abbrev section : RoutingSection
section = record {
  zones =
      (
        codes "all",
        record {
          include_ids = some (codes "udp:a" ∷ []);
          union_of = none;
          intersection_of = none;
          difference_of = none;
        },
      )
      ∷ [];
  routes = record { name = codes "r"; from_zone = codes "all"; targets = codes "t" ∷ [] } ∷ [];
}

abbrev control : RoutingControl
control = record {
  snapshot = record { generation = 4; table = none };
  target_id_by_name = (codes "t", 7) ∷ [];
}

abbrev after : RoutingControl
after = (replace_from_config section (some 4) control).1

abbrev status : RoutingControlStatus
status = record {
  generation = 5;
  enabled = true;
  zone_names = codes "all" ∷ [];
  route_names = codes "r" ∷ [];
  target_ids = codes "t" ∷ [];
}

replace_from_config-installed_example :
    (table : RoutingTable) × (after.snapshot ≡ record { generation = 5; table = some table })
    × (status ≡ status_from_snapshot after.snapshot)
    × Implements section control.target_id_by_name table
unfolding replace_from_config lookup insert sorted status_from_snapshot
replace_from_config-installed_example =
    replace_from_config-installed section (some 4) control status after (refl, tt) refl
