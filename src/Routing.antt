-- ===== src/Routing.antt =====
-- core/routing.py and core/target_identity.py: zones, routes and the compiled plan of numeric
-- targets. Configuration values are taken with their types: what the code refuses by `isinstance`
-- cannot be written here.
pub mod Zones
pub mod Targets
pub mod Plan
pub mod Frozen
mod Tests
use aismixer.Prelude.{Text, Option, none, some, List, [], ◌∷◌, ◌++◌, ℕ, ◌≡◌, refl}
use aismixer.Prelude.Dict.{Dict}

pub record ZoneDefinition : Type 0 where
  pub include_ids : Option (List Text)
  pub union_of : Option (List Text)
  pub intersection_of : Option (List Text)
  pub difference_of : Option (List Text)

pub record RouteDefinition : Type 0 where
  pub name : Text
  pub from_zone : Text
  pub targets : List Text

pub record RoutingResult : Type 0 where
  pub route_names : List Text
  pub target_ids : List Text

-- The exceptions, with what their messages name.
pub data RoutingError : Type 0 where
  not_one_expression : Text → RoutingError
  unknown_zone : Option Text → Text → RoutingError
  circular_reference : List Text → RoutingError
  unknown_route_zone : Text → Text → RoutingError
  unknown_targets : RoutingError
  empty_target_name : RoutingError
  shared_target_id : ℕ → Text → Text → RoutingError
  no_target_plan : RoutingError
  out_of_fuel : RoutingError

pub data Result {ℓ} (A : Type ℓ) : Type ℓ where
  ok : A → Result A
  err : RoutingError → Result A

module _ {ℓ κ} {A : Type ℓ} {B : Type κ} where
  infixl 5 ◌>>=◌
  abbrev pub ◌>>=◌ : Result A → (A → Result B) → Result B
  ok found >>= next = next found
  err failure >>= next = err failure

  -- A sequence that returns has a first call that returns.
  pub >>=-eq-ok :
      (first : Result A) (next : A → Result B) {b : B}
      → first >>= next ≡ ok b
      → (a : A) × (first ≡ ok a) × (next a ≡ ok b)
  >>=-eq-ok (ok a) next h = (a, refl, h)
  >>=-eq-ok (err failure) next h = cc
