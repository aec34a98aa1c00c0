-- ===== src/Routing/Frozen.antt =====
-- core/target_identity.py: what `freeze_target_id_by_name` copies.
use aismixer.Prelude.{
  ℕ, none, some, Option, [], ◌∷◌, ◌≡◌, refl, ◌∙◌, arith, Text, nat_eq, text_eq, list_beq_iff,
  Option-cases, inl, inr,
}
use aismixer.Prelude.Dict.{Dict, lookup, insert, lookup-insert, Distinct, Distinct-insert}
use aismixer.Routing.{ok}
use aismixer.Routing.Targets.{freeze_loop, freeze_target_id_by_name}

abbrev first_of : Option ℕ → Option ℕ → Option ℕ
first_of none before = before
first_of (some n) before = some n

freeze_loop-lookup :
    (items copied : Dict Text ℕ) (names : Dict ℕ Text) (ids : Dict Text ℕ) (a : Text)
    → Distinct items
    → freeze_loop items copied names ≡ ok ids
    → lookup a ids ≡ first_of (lookup a items) (lookup a copied)
unfolding freeze_loop lookup
freeze_loop-lookup [] copied names ids a u h = ground arith
freeze_loop-lookup (([], t) ∷ rest) copied names ids a u h = absurd (ground arith)
freeze_loop-lookup ((c ∷ name, t) ∷ rest) copied names ids a u h =
    elim (Option-cases (lookup t names)) [
      | inr (previous, e) ↦ absurd (ground arith)
      | inl new ↦
          let later =
            freeze_loop-lookup rest (insert (c ∷ name) t copied) (insert t (c ∷ name) names) ids a
              u.1 (rw (new, freeze_loop) at h) in
          ground (arith, later, u.0, lookup-insert (c ∷ name) a t copied, list_beq_iff (c ∷ name) a)
    ]

freeze_loop-Distinct :
    (items copied : Dict Text ℕ) (names : Dict ℕ Text) (ids : Dict Text ℕ)
    → Distinct copied
    → freeze_loop items copied names ≡ ok ids
    → Distinct ids
unfolding freeze_loop
freeze_loop-Distinct [] copied names ids u h = ground arith
freeze_loop-Distinct (([], t) ∷ rest) copied names ids u h = absurd (ground arith)
freeze_loop-Distinct ((c ∷ name, t) ∷ rest) copied names ids u h =
    elim (Option-cases (lookup t names)) [
      | inr (previous, e) ↦ absurd (ground arith)
      | inl new ↦
          freeze_loop-Distinct rest (insert (c ∷ name) t copied) (insert t (c ∷ name) names) ids
            (Distinct-insert (c ∷ name) t copied u) (rw (new, freeze_loop) at h)
    ]

-- The copy of a dict, if there is one, is a dict with the same numbers.
pub freeze_target_id_by_name-lookup :
    (given ids : Dict Text ℕ)
    → Distinct given
    → freeze_target_id_by_name given ≡ ok ids
    → Distinct ids × ((a : Text) → lookup a ids ≡ lookup a given)
unfolding freeze_target_id_by_name lookup
freeze_target_id_by_name-lookup given ids u h = (
  freeze_loop-Distinct given [] [] ids tt h,
  λ a. freeze_loop-lookup given [] [] ids a u h ∙ same (lookup a given),
)
  where
    same : (o : Option ℕ) → first_of o none ≡ o
    same none = refl
    same (some n) = refl
