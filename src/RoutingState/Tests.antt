-- ===== src/RoutingState/Tests.antt =====
-- The theorems at concrete updates.
use aismixer.Prelude.{◌≤◌, true, none, some, List, [], ◌∷◌, ◌≡◌, ◌+◌}
use aismixer.RoutingState.{RoutingSnapshot}
use aismixer.RoutingState.Updates.{Request, expects, updates, generation-updates, one_winner}

abbrev start : RoutingSnapshot
start = record { generation = 0; table = none }

abbrev race : List Request
race = record { table = none; expected = some 0 } ∷ record { table = none; expected = some 0 } ∷ []

one_winner_example : (updates (expects 0) race start).0 ≤ 1
one_winner_example = one_winner 0 race start

generation-updates_example :
    (updates (λ r. true) race start).1.generation ≡ 0 + (updates (λ r. true) race start).0
generation-updates_example = generation-updates race start
