-- ===== src/Routing/Plan.antt =====
-- core/routing.py: the plan of `compile_target_ids`, compared with the routes it is made from.
use mathlib.Core.Path.{subst}
use mathlib.Core.Option.{some-injective}
use aismixer.Prelude.{
  ℕ, true, some, List, [], ◌∷◌, ◌++◌, ◌≡◌, refl, sym, ◌∙◌, arith, Text, nat_eq, nat_beq_iff,
  text_eq, list_beq_iff, member, Option-cases, Bool-cases, inl, inr,
}
use aismixer.Prelude.Dict.{Dict, lookup, insert, lookup-insert}
use aismixer.Routing.{RouteDefinition, RoutingResult, ok, >>=-eq-ok}
use aismixer.Routing.Zones.{Resolved}
use aismixer.Routing.Targets.{
  add_targets, match_loop, match_routes, match_source, TargetRoute, RoutingTable,
  validate_route_zones, make_table, freeze_loop, freeze_target_id_by_name, numeric_targets,
  all_known, compile_routes, compile_target_ids, match_plan, match_target_ids,
}

-- Two names never share a number.
abbrev pub IsInjective : Dict Text ℕ → Type 0
IsInjective ids = (a b : Text) (n : ℕ) → lookup a ids ≡ some n → lookup b ids ≡ some n → a ≡ b

-- the two tables of the loop agree
record Agrees (copied : Dict Text ℕ) (names : Dict ℕ Text) : Type 0 where
  named : (a : Text) (n : ℕ) → lookup a copied ≡ some n → lookup n names ≡ some a

freeze_loop-IsInjective :
    (items : List (Text × ℕ)) (copied : Dict Text ℕ) (names : Dict ℕ Text) (ids : Dict Text ℕ)
    → Agrees copied names
    → freeze_loop items copied names ≡ ok ids
    → IsInjective ids
unfolding freeze_loop
freeze_loop-IsInjective [] copied names ids h q =
    λ a b n p r. ground (arith, h.named a n, h.named b n)
freeze_loop-IsInjective (([], t) ∷ rest) copied names ids h q = absurd (ground arith)
freeze_loop-IsInjective ((c ∷ name, t) ∷ rest) copied names ids h q =
    elim (Option-cases (lookup t names)) [
      | inr (previous, e) ↦ absurd (ground arith)
      | inl new ↦
          freeze_loop-IsInjective rest (insert (c ∷ name) t copied) (insert t (c ∷ name) names) ids
            (record {
              named = λ a n p. ground (
                arith,
                h.named a n,
                lookup-insert (c ∷ name) a t copied,
                lookup-insert t n (c ∷ name) names,
                list_beq_iff (c ∷ name) a,
                nat_beq_iff t n,
              );
            })
            (rw (new, freeze_loop) at q)
    ]

-- `numbers` lists the numbers of `names`
abbrev pub Numbers : Dict Text ℕ → List Text → List ℕ → Type 0
Numbers ids [] [] = Unit
Numbers ids [] (n ∷ ns) = ⊥
Numbers ids (a ∷ names) [] = ⊥
Numbers ids (a ∷ names) (n ∷ ns) = (lookup a ids ≡ some n) × Numbers ids names ns

Numbers-append :
    (ids : Dict Text ℕ) (xs : List Text) (ns : List ℕ) (a : Text) (n : ℕ)
    → Numbers ids xs ns
    → lookup a ids ≡ some n
    → Numbers ids (xs ++ a ∷ []) (ns ++ n ∷ [])
Numbers-append ids [] [] a n h e = (e, tt)
Numbers-append ids [] (m ∷ ns) a n h e = absurd h
Numbers-append ids (x ∷ xs) [] a n h e = absurd h
Numbers-append ids (x ∷ xs) (m ∷ ns) a n h e = (h.0, Numbers-append ids xs ns a n h.1 e)

module _ (ids : Dict Text ℕ) (inj : IsInjective ids) where
  -- a name is in the list exactly if its number is
  member-Numbers :
      (xs : List Text) (ns : List ℕ) (a : Text) (n : ℕ)
      → Numbers ids xs ns
      → lookup a ids ≡ some n
      → member a xs ≡ member n ns
  member-Numbers [] [] a n h e = refl
  member-Numbers [] (m ∷ ns) a n h e = absurd h
  member-Numbers (x ∷ xs) [] a n h e = absurd h
  member-Numbers (x ∷ xs) (m ∷ ns) a n h e =
      ground (arith, member-Numbers xs ns a n, inj x a n, list_beq_iff x a, nat_beq_iff m n)

  add_targets-Numbers :
      (new : List Text) (ms : List ℕ) (xs : List Text) (ns : List ℕ)
      → Numbers ids new ms
      → Numbers ids xs ns
      → Numbers ids (add_targets xs new) (add_targets ns ms)
  unfolding add_targets
  add_targets-Numbers [] [] xs ns h k = k
  add_targets-Numbers [] (m ∷ ms) xs ns h k = absurd h
  add_targets-Numbers (a ∷ new) [] xs ns h k = absurd h
  add_targets-Numbers (a ∷ new) (m ∷ ms) xs ns h k = elim (Bool-cases (member a xs)) [
    | inl there ↦
        rw (there, sym (member-Numbers xs ns a m k h.0) ∙ there)
          (add_targets-Numbers new ms xs ns h.1 k)
    | inr absent ↦
        rw (absent, sym (member-Numbers xs ns a m k h.0) ∙ absent)
          (add_targets-Numbers new ms (xs ++ a ∷ []) (ns ++ m ∷ []) h.1
            (Numbers-append ids xs ns a m k h.0))
  ]

  numeric_targets-Numbers :
      (names : List Text) (ns : List ℕ) → numeric_targets ids names ≡ some ns → Numbers ids names ns
  unfolding numeric_targets
  numeric_targets-Numbers [] [] q = tt
  numeric_targets-Numbers [] (n ∷ ns) q = absurd (ground arith)
  numeric_targets-Numbers (a ∷ names) ns q = elim (Option-cases (lookup a ids)) [
    | inl gone ↦ absurd (ground arith)
    | inr (t, e) ↦ elim (Option-cases (numeric_targets ids names)) [
      | inl gone ↦ absurd (ground arith)
      | inr (ts, f) ↦
          subst (Numbers ids (a ∷ names))
            (some-injective (t ∷ ts) ns (rw (e, numeric_targets, f) at q))
            (e, numeric_targets-Numbers names ts f)
    ]
  ]

  -- The plan of the routes, against the routes themselves.
  match_plan-Numbers :
      (source : Text) (zones : Resolved) (routes : List RouteDefinition) (plan : List TargetRoute)
      (names xs : List Text) (ns : List ℕ)
      → compile_routes ids zones routes ≡ some plan
      → Numbers ids xs ns
      → (r : RoutingResult) × (match_loop source zones routes names xs ≡ ok r)
        × Numbers ids r.target_ids (match_plan source plan ns)
  unfolding compile_routes match_loop match_plan
  match_plan-Numbers source zones [] plan names xs ns q h = (
    record { route_names = names; target_ids = xs },
    refl,
    subst (λ p. Numbers ids xs (match_plan source p ns)) (some-injective [] plan q) h,
  )
  match_plan-Numbers source zones (route ∷ rest) plan names xs ns q h =
      elim (Option-cases (lookup route.from_zone zones)) [
        | inl gone ↦ absurd (ground arith)
        | inr (sources, e) ↦ elim (Option-cases (numeric_targets ids route.targets)) [
          | inl gone ↦ absurd (ground arith)
          | inr (ts, f) ↦ elim (Option-cases (compile_routes ids zones rest)) [
            | inl gone ↦ absurd (ground arith)
            | inr (more, g) ↦
                let t : TargetRoute = record { source_ids = sources; numeric_ids = ts } in
                let p : (t ∷ more) ≡ plan =
                  some-injective (t ∷ more) plan (rw (e, compile_routes, f, g) at q) in
                rw (← p, e, match_loop)
                  (elim (Bool-cases (member source sources)) [
                    | inl there ↦ rw there (
                        match_plan-Numbers source zones rest more (names ++ route.name ∷ [])
                          (add_targets xs route.targets) (add_targets ns ts) g
                          (add_targets-Numbers route.targets ts xs ns
                            (numeric_targets-Numbers route.targets ts f) h))
                    | inr absent ↦
                        rw absent (match_plan-Numbers source zones rest more names xs ns g h)
                  ])
          ]
        ]
      ]

-- Routes with known zones and known targets have a plan.
compile_routes_total :
    (ids : Dict Text ℕ) (zones : Resolved) (routes : List RouteDefinition)
    → validate_route_zones zones routes ≡ ok tt
    → all_known ids routes ≡ true
    → (plan : List TargetRoute) × (compile_routes ids zones routes ≡ some plan)
unfolding validate_route_zones all_known compile_routes
compile_routes_total ids zones [] v k = ([], refl)
compile_routes_total ids zones (route ∷ rest) v k =
    elim (Option-cases (lookup route.from_zone zones)) [
      | inl gone ↦ absurd (ground arith)
      | inr (sources, e) ↦ elim (Option-cases (numeric_targets ids route.targets)) [
        | inl gone ↦ absurd (ground arith)
        | inr (ts, f) ↦
            let (more, g) = compile_routes_total ids zones rest (ground arith) (ground arith) in
            (
              record { source_ids = sources; numeric_ids = ts } ∷ more,
              rw (e, compile_routes, f, g) refl,
            )
      ]
    ]

-- What the two matchers of a compiled table return for a source.
pub record SameTargets (ids : Dict Text ℕ) (table : RoutingTable) (source : Text) : Type 0 where
  pub by_name : RoutingResult
  pub by_number : List ℕ
  pub named : match_source table source ≡ ok by_name
  pub numbered : match_target_ids table source ≡ ok by_number
  pub agree : Numbers ids by_name.target_ids by_number

abbrev planned : Dict Text ℕ → Resolved → List RouteDefinition → RoutingTable
planned ids zones routes = record {
  resolved_zones = zones;
  route_definitions = routes;
  compiled = compile_routes ids zones routes;
}

planned-SameTargets :
    (ids : Dict Text ℕ)
    → IsInjective ids
    → (zones : Resolved) (routes : List RouteDefinition) (source : Text)
    → validate_route_zones zones routes ≡ ok tt
    → all_known ids routes ≡ true
    → SameTargets ids (planned ids zones routes) source
unfolding match_routes match_target_ids
planned-SameTargets ids inj zones routes source v known =
    let (plan, g) = compile_routes_total ids zones routes v known in
    let (r, e, same) = match_plan-Numbers ids inj source zones routes plan [] [] [] g tt in
    record {
      by_name = r;
      by_number = match_plan source plan [];
      named = e;
      numbered = rw (g, match_target_ids) refl;
      agree = same;
    }

-- If `compile_target_ids` returns a table, then for every source both matchers return, and the
-- numeric targets are the numbers of the named targets, one for one and in the same order.
pub compile_target_ids-SameTargets :
    (table compiled : RoutingTable) (given : Dict Text ℕ) (source : Text)
    → compile_target_ids table given ≡ ok compiled
    → (ids : Dict Text ℕ) × (freeze_target_id_by_name given ≡ ok ids)
      × SameTargets ids compiled source
unfolding compile_target_ids make_table match_routes match_target_ids freeze_target_id_by_name
compile_target_ids-SameTargets table compiled given source h =
    let (ids, frozen, h') = >>=-eq-ok (freeze_target_id_by_name given) _ h in
    let inj =
      freeze_loop-IsInjective given [] [] ids
        (record { named = λ a n p. absurd (unfold lookup in ground arith) }) frozen in
    elim (Bool-cases (all_known ids table.route_definitions)) [
      | inr some_unknown ↦ absurd (ground arith)
      | inl known ↦
          let (fresh, made, h'') =
            >>=-eq-ok (make_table table.resolved_zones table.route_definitions) _
              (rw known at h') in
          let (_, v, made') =
            >>=-eq-ok (validate_route_zones table.resolved_zones table.route_definitions) _ made in
          let p : planned ids table.resolved_zones table.route_definitions ≡ compiled =
            cc (made', h'') in
          (
            ids,
            frozen,
            subst (λ t. SameTargets ids t source) p
                (planned-SameTargets ids inj table.resolved_zones table.route_definitions source v
                  known),
          )
    ]
