-- ===== src/Prelude/Order.antt =====
-- Python's `sorted` and the order of texts and tuples, as Boolean tests.
use Prim.Native.Nat.{suc}
use mathlib.Core.Path.{◌≡◌, refl}
use mathlib.Core.Bool.{Bool, true, false, ◌||◌}
use mathlib.Core.List.{List, [], ◌∷◌}
use native.Mathlib.Omega.{arith}
use aismixer.Prelude.Tests.{ltb, nat_beq, if◌then◌else◌}
use aismixer.Prelude.Keys.{Eq, ◌==◌, Text, member, Unique}
use aismixer.Prelude.Lists.{length}

-- `a < b` on `str`: code point by code point, a proper prefix first.
unfoldable pub text_ltb : Text → Text → Bool
text_ltb xs [] = false
text_ltb [] (y ∷ ys) = true
text_ltb (x ∷ xs) (y ∷ ys) = let rest = text_ltb xs ys in if nat_beq x y then rest else ltb x y

module _ {ℓ} {A : Type ℓ} (less : A → A → Bool) where
  unfoldable pub insert_sorted : A → List A → List A
  insert_sorted a [] = a ∷ []
  insert_sorted a (x ∷ xs) = if less x a then x ∷ insert_sorted a xs else a ∷ x ∷ xs

  -- `sorted(xs)` for a strict order on distinct items.
  unfoldable pub sorted : List A → List A
  unfolding insert_sorted
  sorted [] = []
  sorted (x ∷ xs) = insert_sorted x (sorted xs)

  pub length-insert_sorted : (a : A) (xs : List A) → length (insert_sorted a xs) ≡ suc (length xs)
  unfolding insert_sorted
  length-insert_sorted a [] = refl
  length-insert_sorted a (x ∷ xs) = ground (arith, length-insert_sorted a xs)

  pub length-sorted : (xs : List A) → length (sorted xs) ≡ length xs
  unfolding sorted
  length-sorted [] = refl
  length-sorted (x ∷ xs) = ground (arith, length-insert_sorted x (sorted xs), length-sorted xs)

module _ {ℓ} {A : Type ℓ} ⦃e : Eq A⦄ (less : A → A → Bool) where
  pub member-insert_sorted :
      (b a : A) (xs : List A) → member b (insert_sorted less a xs) ≡ (a == b || member b xs)
  unfolding insert_sorted
  member-insert_sorted b a [] = refl
  member-insert_sorted b a (x ∷ xs) = ground (arith, member-insert_sorted b a xs)

  Unique-insert_sorted :
      (a : A) (xs : List A) → member a xs ≡ false → Unique xs → Unique (insert_sorted less a xs)
  unfolding insert_sorted
  Unique-insert_sorted a [] h u = (refl, tt)
  Unique-insert_sorted a (x ∷ xs) h u =
      ground (
        arith,
        member-insert_sorted x a xs,
        Unique-insert_sorted a xs,
        e.beq_iff a x,
        e.beq_iff x a,
      )

  pub member-sorted : (b : A) (xs : List A) → member b (sorted less xs) ≡ member b xs
  unfolding sorted
  member-sorted b [] = refl
  member-sorted b (x ∷ xs) =
      ground (arith, member-insert_sorted b x (sorted less xs), member-sorted b xs)

  pub Unique-sorted : (xs : List A) → Unique xs → Unique (sorted less xs)
  unfolding sorted
  Unique-sorted [] h = tt
  Unique-sorted (x ∷ xs) h =
      Unique-insert_sorted x (sorted less xs) (rw member-sorted h.0) (Unique-sorted xs h.1)
