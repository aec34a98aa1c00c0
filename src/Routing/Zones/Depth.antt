-- ===== src/Routing/Zones/Depth.antt =====
-- core/routing.py: the depth of the recursion of `resolve_zones`.
use aismixer.Prelude.{
  ℕ, zero, suc, ◌+◌, ◌≤◌, ◌<◌, true, false, List, [], ◌∷◌, ◌++◌, ◌≡◌, ◌≢◌, refl, arith, Text,
  nat_eq, text_eq, list_beq_iff, member, member-append, Unique, length, length-append, Option-cases,
  Bool-cases, inl, inr,
}
use aismixer.Prelude.Dict.{
  Dict, keys, lookup, contains, remove, Distinct, lookup-remove, length-remove, Distinct-remove,
}
use aismixer.Prelude.Order.{sorted, text_ltb}
use aismixer.Routing.{ZoneDefinition, out_of_fuel, Result, ok, err, ◌>>=◌}
use aismixer.Routing.Zones.{
  Operation, include, expressions, only_expression, zone_expression, Resolved, resolve_each,
  evaluate, resolve, resolve_names, resolve_zones,
}

-- every name of the path is defined
abbrev Defined : Dict Text ZoneDefinition → List Text → Type 0
Defined definitions [] = Unit
Defined definitions (n ∷ path) = (contains n definitions ≡ true) × Defined definitions path

Defined-remove :
    (n : Text) (d : Dict Text ZoneDefinition) (path : List Text)
    → Distinct d
    → member n path ≡ false
    → Defined d path
    → Defined (remove n d) path
Defined-remove n d [] u m h = tt
Defined-remove n d (k ∷ path) u m h =
    ground
      (arith, lookup-remove n k d u, list_beq_iff k n, list_beq_iff n k, Defined-remove n d path u)

-- A path of distinct defined names is no longer than the definitions.
length-path-le :
    (path : List Text) (d : Dict Text ZoneDefinition)
    → Distinct d
    → Unique path
    → Defined d path
    → length path ≤ length d
length-path-le [] d u q h = omega arith
length-path-le (n ∷ path) d u q h = ground (
  arith,
  length-path-le path (remove n d) (Distinct-remove n d u) q.1 (Defined-remove n d path u q.0 h.1),
  length-remove n d,
)

Unique-append :
    (path : List Text) (n : Text) → Unique path → member n path ≡ false → Unique (path ++ n ∷ [])
Unique-append [] n u m = (refl, tt)
Unique-append (x ∷ path) n u m =
    ground (
      arith,
      Unique-append path n,
      member-append x path (n ∷ []),
      list_beq_iff n x,
      list_beq_iff x n,
    )

Defined-append :
    (path : List Text) (n : Text) (d : Dict Text ZoneDefinition)
    → Defined d path
    → contains n d ≡ true
    → Defined d (path ++ n ∷ [])
Defined-append [] n d h c = (c, tt)
Defined-append (x ∷ path) n d h c = (h.0, Defined-append path n d h.1 c)

bind_fuelled {ℓ κ} :
    {A : Type ℓ} {B : Type κ} (m : Result A) (f : A → Result B)
    → (m ≡ err out_of_fuel → ⊥)
    → ((a : A) → f a ≡ err out_of_fuel → ⊥)
    → (m >>= f) ≡ err out_of_fuel
    → ⊥
bind_fuelled (ok a) f hm hf q = hf a q
bind_fuelled (err x) f hm hf q = hm (ground arith)

module _ (f : Text → Resolved → Result (List Text × Resolved))
    (hf : (n : Text) (r : Resolved) → f n r ≡ err out_of_fuel → ⊥) where
  resolve_each-fuelled :
      (refs : List Text) (r : Resolved) → resolve_each f refs r ≡ err out_of_fuel → ⊥
  unfolding resolve_each
  resolve_each-fuelled [] r q = ground arith
  resolve_each-fuelled (v ∷ vs) r q =
      bind_fuelled (f v r) _ (hf v r)
        (λ a.
          bind_fuelled (resolve_each f vs a.1) _ (resolve_each-fuelled vs a.1)
            (λ b p. ground arith))
        q

  evaluate-fuelled :
      (x : Operation × List Text) (r : Resolved) → evaluate f x r ≡ err out_of_fuel → ⊥
  unfolding evaluate
  evaluate-fuelled (include, values) r q = ground arith
  evaluate-fuelled (op, refs) r q =
      bind_fuelled (resolve_each f refs r) _ (resolve_each-fuelled refs r) (λ a p. ground arith) q

only_expression-fuelled :
    (n : Text) (xs : List (Operation × List Text)) → only_expression n xs ≡ err out_of_fuel → ⊥
unfolding only_expression
only_expression-fuelled n (x ∷ []) q = ground arith
only_expression-fuelled n _ q = ground arith

resolve-fuelled :
    (definitions : Dict Text ZoneDefinition) (fuel : ℕ) (name : Text) (path : List Text)
    (r : Resolved)
    → Distinct definitions
    → Unique path
    → Defined definitions path
    → length definitions < fuel + length path
    → resolve definitions fuel name path r ≡ err out_of_fuel
    → ⊥
unfolding resolve
resolve-fuelled definitions zero name path r u q h enough e =
    omega (arith, length-path-le path definitions u q h)
resolve-fuelled definitions (suc fuel) name path r u q h enough e =
    elim (Option-cases (lookup name r)) [
      | inr (found, p) ↦ ground arith
      | inl new ↦ elim (Option-cases (lookup name definitions)) [
        | inl undefined ↦ ground arith
        | inr (d, p) ↦ elim (Bool-cases (member name path)) [
          | inl again ↦ ground arith
          | inr off ↦
              bind_fuelled (zone_expression name d) _
                (unfold zone_expression in only_expression-fuelled name (expressions d))
                (λ x.
                  bind_fuelled (evaluate _ x r) _
                    (evaluate-fuelled _
                      (λ n t.
                        resolve-fuelled definitions fuel n (path ++ name ∷ []) t u
                          (Unique-append path name q off)
                          (Defined-append path name definitions h (rw p refl))
                          (omega (arith, length-append path (name ∷ []))))
                      x r)
                    (λ a s. ground arith))
                (rw (new, resolve, p, off) at e)
        ]
      ]
    ]

resolve_names-fuelled :
    (definitions : Dict Text ZoneDefinition) (names : List Text) (r : Resolved)
    → Distinct definitions
    → resolve_names definitions names r ≡ err out_of_fuel
    → ⊥
unfolding resolve_names
resolve_names-fuelled definitions [] r u q = ground arith
resolve_names-fuelled definitions (name ∷ rest) r u q =
    bind_fuelled (resolve definitions (suc (length definitions)) name [] r) _
      (resolve-fuelled definitions (suc (length definitions)) name [] r u tt tt (omega arith))
      (λ a. resolve_names-fuelled definitions rest a.1 u) q

-- Whatever the definitions, circular ones included, the recursion of `resolve_zones` ends within
-- the depth that the model allows: as many levels as there are definitions, and one.
pub resolve_zones_fuelled :
    (definitions : Dict Text ZoneDefinition)
    → Distinct definitions
    → resolve_zones definitions ≢ err out_of_fuel
unfolding resolve_zones
resolve_zones_fuelled definitions u q =
    bind_fuelled (resolve_names definitions (sorted text_ltb (keys definitions)) []) _
      (resolve_names-fuelled definitions (sorted text_ltb (keys definitions)) [] u)
      (λ r p. ground arith) q
