-- ===== src/Routing/Zones/Sound.antt =====
-- core/routing.py: what the sets that `resolve_zones` returns have to do with the expressions.
use mathlib.Core.Path.{subst, subst₂}
use aismixer.Prelude.{
  ℕ, zero, suc, true, false, none, some, List, [], ◌∷◌, ◌++◌, ◌≡◌, refl, sym, ◌∙◌, ap, arith, Text,
  nat_eq, text_eq, list_beq_iff, ◌==◌, member, member-append, length, if◌then◌else◌, Option-cases,
  Bool-cases, inl, inr,
}
use aismixer.Prelude.Dict.{Dict, keys, lookup, contains, insert, lookup-insert, member-keys}
use aismixer.Prelude.Order.{sorted, text_ltb, member-sorted}
use aismixer.Routing.{ZoneDefinition, Result, ok, >>=-eq-ok}
use aismixer.Routing.Zones.{
  Operation, include, union, intersection, difference, zone_expression, Resolved, resolve_each,
  evaluate, resolve, resolve_names, in_order, resolve_zones,
}
use aismixer.Routing.Zones.Meaning.{
  Operands, Means, included, united, intersected, subtracted, zone_expression-OnlyOf, apply-union,
  apply-intersection, apply-difference,
}

abbrev pub IsSound : Dict Text ZoneDefinition → Resolved → Type 0
IsSound definitions r = (name set : _) → lookup name r ≡ some set → Means definitions r name set

abbrev Extends : Resolved → Resolved → Type 0
Extends r r' = (k : Text) (v : List Text) → lookup k r ≡ some v → lookup k r' ≡ some v

Operands-Extends :
    (r r' : Resolved) (vs : List Text) (xs : List (List Text))
    → Extends r r'
    → Operands r vs xs
    → Operands r' vs xs
Operands-Extends r r' [] [] h o = tt
Operands-Extends r r' [] (x ∷ xs) h o = o
Operands-Extends r r' (v ∷ vs) [] h o = o
Operands-Extends r r' (v ∷ vs) (x ∷ xs) h o = (h v x o.0, Operands-Extends r r' vs xs h o.1)

module _ (definitions : Dict Text ZoneDefinition) where
  Means-Extends :
      (r r' : Resolved) (name : Text) (set : List Text)
      → Extends r r'
      → Means definitions r name set
      → Means definitions r' name set
  Means-Extends r r' name set h (included d e z) = included d e z
  Means-Extends r r' name set h (united d refs xs e z o q) =
      united d refs xs e z (Operands-Extends r r' refs xs h o) q
  Means-Extends r r' name set h (intersected d refs xs e z o q) =
      intersected d refs xs e z (Operands-Extends r r' refs xs h o) q
  Means-Extends r r' name set h (subtracted d refs xs e z o q) =
      subtracted d refs xs e z (Operands-Extends r r' refs xs h o) q

  -- what one call of `resolve` leaves, below a path
  record Step (path : List Text) (r r' : Resolved) : Type 0 where
    sound : IsSound definitions r'
    extends : Extends r r'
    absent : (n : Text) → member n path ≡ true → lookup n r ≡ none → lookup n r' ≡ none

  Step-trans : {path : List Text} {r s t : Resolved} → Step path r s → Step path s t → Step path r t
  Step-trans h k = record {
    sound = k.sound;
    extends = λ n v p. k.extends n v (h.extends n v p);
    absent = λ n m p. k.absent n m (h.absent n m p);
  }

  Step-refl : (path : List Text) (r : Resolved) → IsSound definitions r → Step path r r
  Step-refl path r h = record { sound = h; extends = λ n v p. p; absent = λ n m p. p }

  -- a resolver that only adds sound entries, off the path
  abbrev IsResolver : List Text → (Text → Resolved → Result (List Text × Resolved)) → Type 0
  IsResolver path f =
      (name : Text) (r : Resolved) (p : List Text × Resolved)
      → IsSound definitions r
      → f name r ≡ ok p
      → Step path r p.1 × (lookup name p.1 ≡ some p.0)

  ok-injective {ℓ} : {A : Type ℓ} (a b : A) → ok a ≡ ok b → a ≡ b
  ok-injective a b h = ground arith

  module _ (path : List Text) (f : Text → Resolved → Result (List Text × Resolved))
      (hf : IsResolver path f) where
    resolve_each-Operands :
        (refs : List Text) (r : Resolved) (p : List (List Text) × Resolved)
        → IsSound definitions r
        → resolve_each f refs r ≡ ok p
        → Step path r p.1 × Operands p.1 refs p.0
    unfolding resolve_each
    resolve_each-Operands [] r p h q =
        subst (λ p. Step path r p.1 × Operands p.1 [] p.0) (ok-injective _ p q)
          (Step-refl path r h, tt)
    resolve_each-Operands (v ∷ vs) r p h q =
        let (a, ea, q') = >>=-eq-ok (f v r) _ q in
        let (b, eb, q'') = >>=-eq-ok (resolve_each f vs a.1) _ q' in
        let (s, found) = hf v r a h ea in
        let (t, os) = resolve_each-Operands vs a.1 b s.sound eb in
        subst (λ p. Step path r p.1 × Operands p.1 (v ∷ vs) p.0) (ok-injective _ p q'')
          (Step-trans s t, (t.extends v a.0 found, os))

  -- the name's set is right once its expression is evaluated below a longer path
  record Evaluated (path : List Text) (name : Text) (r : Resolved) (p : List Text × Resolved)
      : Type 0 where
    step : Step path r p.1
    means : Means definitions p.1 name p.0

  evaluate-Evaluated :
      (path : List Text) (f : Text → Resolved → Result (List Text × Resolved))
      → IsResolver path f
      → (name : Text) (d : ZoneDefinition) (x : Operation × List Text) (r : Resolved)
        (p : List Text × Resolved)
      → lookup name definitions ≡ some d
      → zone_expression name d ≡ ok x
      → IsSound definitions r
      → evaluate f x r ≡ ok p
      → Evaluated path name r p
  unfolding evaluate
  evaluate-Evaluated path f hf name d (include, values) r p e z h q =
      subst (Evaluated path name r) (ok-injective _ p q) (record {
        step = Step-refl path r h;
        means = included d e (zone_expression-OnlyOf name d include values z);
      })
  evaluate-Evaluated path f hf name d (union, refs) r p e z h q =
      let (a, ea, q') = >>=-eq-ok (resolve_each f refs r) _ q in
      let (s, os) = resolve_each-Operands path f hf refs r a h ea in
      subst (Evaluated path name r) (ok-injective _ p q') (record {
        step = s;
        means =
            united d refs a.0 e (zone_expression-OnlyOf name d union refs z) os
              (λ n. apply-union n a.0);
      })
  evaluate-Evaluated path f hf name d (intersection, refs) r p e z h q =
      let (a, ea, q') = >>=-eq-ok (resolve_each f refs r) _ q in
      let (s, os) = resolve_each-Operands path f hf refs r a h ea in
      subst (Evaluated path name r) (ok-injective _ p q') (record {
        step = s;
        means =
            intersected d refs a.0 e (zone_expression-OnlyOf name d intersection refs z) os
              (λ n. apply-intersection n a.0);
      })
  evaluate-Evaluated path f hf name d (difference, refs) r p e z h q =
      let (a, ea, q') = >>=-eq-ok (resolve_each f refs r) _ q in
      let (s, os) = resolve_each-Operands path f hf refs r a h ea in
      subst (Evaluated path name r) (ok-injective _ p q') (record {
        step = s;
        means =
            subtracted d refs a.0 e (zone_expression-OnlyOf name d difference refs z) os
              (λ n. apply-difference n a.0);
      })

  -- the entry of the name itself, put in last
  Step-insert :
      (path : List Text) (name : Text) (r : Resolved) (p : List Text × Resolved)
      → lookup name r ≡ none
      → member name path ≡ false
      → Evaluated (path ++ name ∷ []) name r p
      → Step path r (insert name p.0 p.1)
  Step-insert path name r p new off v =
      let gone : lookup name p.1 ≡ none =
        v.step.absent name
          (ground (arith, member-append name path (name ∷ []), list_beq_iff name name)) new in
      let grows : Extends p.1 (insert name p.0 p.1) =
        λ k x q. ground (arith, lookup-insert name k p.0 p.1, list_beq_iff name k) in
      record {
        sound = λ k x q. elim (Bool-cases (name == k)) [
          | inl same ↦
              subst₂ (Means definitions (insert name p.0 p.1)) ((list_beq_iff name k).0 same)
                (ground (arith, lookup-insert name k p.0 p.1))
                (Means-Extends p.1 (insert name p.0 p.1) name p.0 grows v.means)
          | inr other ↦
              Means-Extends p.1 (insert name p.0 p.1) k x grows
                (v.step.sound k x (ground (arith, lookup-insert name k p.0 p.1)))
        ];
        extends = λ k x q. grows k x (v.step.extends k x q);
        absent = λ k m q. ground (
          arith,
          lookup-insert name k p.0 p.1,
          list_beq_iff name k,
          v.step.absent k,
          member-append k path (name ∷ []),
        );
      }

  resolve-IsResolver :
      (fuel : ℕ) (path : List Text) → IsResolver path (λ n r. resolve definitions fuel n path r)
  unfolding resolve
  resolve-IsResolver zero path name r p h q = absurd (ground arith)
  resolve-IsResolver (suc fuel) path name r p h q = elim (Option-cases (lookup name r)) [
    | inr (found, e) ↦
        subst (λ p. Step path r p.1 × (lookup name p.1 ≡ some p.0))
          (ok-injective (found, r) p (rw (e, resolve) at q)) (Step-refl path r h, e)
    | inl new ↦ elim (Option-cases (lookup name definitions)) [
      | inl undefined ↦ absurd (ground arith)
      | inr (d, e) ↦ elim (Bool-cases (member name path)) [
        | inl again ↦ absurd (ground arith)
        | inr off ↦
            let (x, z, q') =
              >>=-eq-ok (zone_expression name d) _ (rw (new, resolve, e, off) at q) in
            let (a, ea, q'') = >>=-eq-ok (evaluate _ x r) _ q' in
            let v =
              evaluate-Evaluated (path ++ name ∷ []) _ (resolve-IsResolver fuel (path ++ name ∷ []))
                name d x r a e z h ea in
            subst (λ p. Step path r p.1 × (lookup name p.1 ≡ some p.0))
              (ok-injective (a.0, insert name a.0 a.1) p q'')
              (
                Step-insert path name r a new off v,
                ground (arith, lookup-insert name name a.0 a.1, list_beq_iff name name),
              )
      ]
    ]
  ]

  -- Every name of the list is resolved, soundly.
  resolve_names-IsSound :
      (names : List Text) (r r' : Resolved)
      → IsSound definitions r
      → resolve_names definitions names r ≡ ok r'
      → IsSound definitions r'
        × Extends r r'
        × ((n : Text) → member n names ≡ true → contains n r' ≡ true)
  unfolding resolve_names
  resolve_names-IsSound [] r r' h q =
      subst
        (λ t.
          IsSound definitions t
          × Extends r t
          × ((n : Text) → member n [] ≡ true → contains n t ≡ true))
        (ok-injective r r' q) (h, (λ k v p. p), λ n m. absurd (ground arith))
  resolve_names-IsSound (name ∷ rest) r r' h q =
      let (a, ea, q') = >>=-eq-ok (resolve definitions (suc (length definitions)) name [] r) _ q in
      let (s, found) = resolve-IsResolver (suc (length definitions)) [] name r a h ea in
      let (t, x, all) = resolve_names-IsSound rest a.1 r' s.sound q' in
      (
        t,
        (λ k v p. x k v (s.extends k v p)),
        λ n m. ground (arith, all n, list_beq_iff name n, x name a.0),
      )

lookup-in_order :
    (names : List Text) (r : Resolved) (k : Text)
    → lookup k (in_order names r) ≡ (if member k names then lookup k r else none)
unfolding in_order lookup
lookup-in_order [] r k = refl
lookup-in_order (n ∷ names) r k = elim (Option-cases (lookup n r)) [
  | inl gone ↦ rw (gone, in_order) (ground (arith, lookup-in_order names r k, list_beq_iff n k))
  | inr (set, e) ↦ rw (e, in_order) (ground (arith, lookup-in_order names r k, list_beq_iff n k))
]

lookup-in_order_keys :
    (r : Resolved) (k : Text) → lookup k (in_order (sorted text_ltb (keys r)) r) ≡ lookup k r
lookup-in_order_keys r k =
    lookup-in_order (sorted text_ltb (keys r)) r k
    ∙ (ground (arith, member-sorted text_ltb k (keys r), member-keys k r))

-- If `resolve_zones` returns, every defined zone has a set, and each set is what the zone's one
-- expression says: the source IDs that it lists, or, of the sets that are returned for the zones it
-- names, those in at least one (union), those in every one (intersection), or those in the first and
-- in no later one (difference); of no zones at all, none.
pub resolve_zones-IsSound :
    (definitions : Dict Text ZoneDefinition) (zones : Resolved)
    → resolve_zones definitions ≡ ok zones
    → ((name : Text) (set : List Text)
        → lookup name zones ≡ some set
        → Means definitions zones name set)
      × ((name : Text) → contains name definitions ≡ true → contains name zones ≡ true)
unfolding resolve_zones
resolve_zones-IsSound definitions zones h =
    let names = sorted text_ltb (keys definitions) in
    let (r, e, h') = >>=-eq-ok (resolve_names definitions names []) _ h in
    let (sound, grows, all) =
      resolve_names-IsSound definitions names [] r (nothing definitions) e in
    let back : (k : Text) → lookup k zones ≡ lookup k r =
      λ k. ap (lookup k) (sym (ok-injective definitions _ zones h')) ∙ lookup-in_order_keys r k in
    (
      (λ name set p.
          Means-Extends definitions r zones name set (λ k v q. back k ∙ q)
            (sound name set (sym (back name) ∙ p))),
      λ name c. ground (
        arith,
        back name,
        all name,
        member-sorted text_ltb name (keys definitions),
        member-keys name definitions,
      ),
    )
  where
    nothing : (definitions : Dict Text ZoneDefinition) → IsSound definitions []
    nothing definitions name set p = absurd (unfold lookup in ground arith)
