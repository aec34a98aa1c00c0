-- ===== src/SourcePolicy/Sanitised.antt =====
-- core/s_policy.py: what a chosen source value consists of.
use mathlib.Core.Path.{subst}
use aismixer.Prelude.{
  ℕ, zero, suc, ◌≤◌, Bool, true, false, ◌&&◌, Option, none, some, [], ◌∷◌, ◌≡◌, refl, ap, arith,
  length, take, Text, Bool-cases, inl, inr,
}
use aismixer.SourcePolicy.{
  is_safe, substitute, underscore, strip_left, strip_right, push_unless_blank, or_empty, sanitize_s,
  ip_to_s, given, not_anonymous, choose_s_value_from_candidates,
}

abbrev pub all_safe : Text → Bool
all_safe [] = true
all_safe (c ∷ v) = is_safe c && all_safe v

-- At most 15 characters, each of them a letter, a digit or an underscore.
abbrev pub IsSourceValue : Text → Type 0
IsSourceValue v = (length v ≤ 15) × (all_safe v ≡ true)

length-take-le : (n : ℕ) (v : Text) → length (take n v) ≤ n
length-take-le zero v = omega arith
length-take-le (suc n) [] = omega arith
length-take-le (suc n) (c ∷ v) = omega (arith, length-take-le n v)

all_safe-take : (n : ℕ) (v : Text) → all_safe v ≡ true → all_safe (take n v) ≡ true
all_safe-take zero v h = refl
all_safe-take (suc n) [] h = refl
all_safe-take (suc n) (c ∷ v) h = ground (arith, all_safe-take n v)

is_safe-underscore : is_safe 95 ≡ true
unfolding is_safe
is_safe-underscore = refl

all_safe-substitute : (v : Text) → all_safe (substitute v) ≡ true
all_safe-substitute [] = refl
all_safe-substitute (c ∷ v) = ground (arith, all_safe-substitute v, is_safe-underscore)

sanitize_s-IsSourceValue :
    (is_space : ℕ → Bool) (val : Option Text) → IsSourceValue (sanitize_s is_space val)
unfolding sanitize_s
sanitize_s-IsSourceValue is_space val =
    let v = strip_right is_space (strip_left is_space (or_empty val)) in
    (length-take-le 15 (substitute v), all_safe-take 15 (substitute v) (all_safe-substitute v))

ip_to_s-IsSourceValue :
    (is_space : ℕ → Bool) (ip : Option Text) → IsSourceValue (ip_to_s is_space ip)
unfolding ip_to_s is_safe
ip_to_s-IsSourceValue is_space none = (omega arith, refl)
ip_to_s-IsSourceValue is_space (some []) = (omega arith, refl)
ip_to_s-IsSourceValue is_space (some (c ∷ ip)) =
    sanitize_s-IsSourceValue is_space (some (underscore 58 (underscore 46 (c ∷ ip))))

-- Whatever the candidates, and whatever counts as white space, the chosen source value has at most
-- 15 characters, and each is a letter, a digit or an underscore of ASCII.
pub choose_s_value_from_candidates-IsSourceValue :
    (is_space : ℕ → Bool) (station name incoming ip : Option Text)
    → IsSourceValue (choose_s_value_from_candidates is_space station name incoming ip)
unfolding choose_s_value_from_candidates
choose_s_value_from_candidates-IsSourceValue is_space station name incoming ip =
    elim (Bool-cases (given station)) [
      | inl first ↦ rw first (sanitize_s-IsSourceValue is_space station)
      | inr no_station ↦ elim (Bool-cases (given name && not_anonymous name)) [
        | inl second ↦ rw (no_station, second) (sanitize_s-IsSourceValue is_space name)
        | inr no_name ↦ elim (Bool-cases (given incoming)) [
          | inl third ↦ rw (no_station, no_name, third) (sanitize_s-IsSourceValue is_space incoming)
          | inr none_left ↦ rw (no_station, no_name, none_left) (ip_to_s-IsSourceValue is_space ip)
        ]
      ]
    ]

-- A safe text is left alone by the steps of `sanitize_s`, but for its length.
module _ (is_space : ℕ → Bool) (visible : (c : ℕ) → is_safe c ≡ true → is_space c ≡ false) where
  substitute_safe : (v : Text) → all_safe v ≡ true → substitute v ≡ v
  substitute_safe [] h = refl
  substitute_safe (c ∷ v) h = ground (arith, substitute_safe v)

  strip_left_safe : (v : Text) → all_safe v ≡ true → strip_left is_space v ≡ v
  strip_left_safe [] h = refl
  strip_left_safe (c ∷ v) h = ground (arith, visible c)

  push_safe : (c : ℕ) (v : Text) → is_safe c ≡ true → push_unless_blank is_space c v ≡ c ∷ v
  push_safe c [] h = ground (arith, visible c)
  push_safe c (d ∷ v) h = refl

  strip_right_safe : (v : Text) → all_safe v ≡ true → strip_right is_space v ≡ v
  strip_right_safe [] h = refl
  strip_right_safe (c ∷ v) h = rw (strip_right_safe v (ground arith)) (push_safe c v (ground arith))

  take_short : (n : ℕ) (v : Text) → length v ≤ n → take n v ≡ v
  take_short zero [] h = refl
  take_short zero (c ∷ v) h = absurd (omega (arith, h))
  take_short (suc n) [] h = refl
  take_short (suc n) (c ∷ v) h = ap (λ w. c ∷ w) (take_short n v (omega (arith, h)))

  -- If no letter, digit or underscore is white space, a text of at most 15 of these characters is
  -- its own sanitised value.
  pub sanitize_s_safe : (v : Text) → IsSourceValue v → sanitize_s is_space (some v) ≡ v
  unfolding sanitize_s
  sanitize_s_safe v (short, safe) =
      rw (strip_left_safe v safe, strip_right_safe v safe, substitute_safe v safe)
        (take_short 15 v short)

  -- If no letter, digit or underscore is white space, a value that `choose_s_value_from_candidates`
  -- returned and that is not empty is chosen unchanged when it is a candidate again: as station ID
  -- whatever else comes in; as name, unless it is ANONYMOUS, when there is no station ID; and as the
  -- incoming value when there is neither a station ID nor a name, whatever the address.
  pub choose_again :
      (station name incoming ip second_name second_incoming second_ip : Option Text) (c : ℕ)
      (v : Text)
      → choose_s_value_from_candidates is_space station name incoming ip ≡ c ∷ v
      → (choose_s_value_from_candidates is_space
            (some (c ∷ v))
            second_name
            second_incoming
            second_ip
          ≡ c ∷ v)
        × (not_anonymous (some (c ∷ v)) ≡ true
            → choose_s_value_from_candidates is_space none (some (c ∷ v)) second_incoming second_ip
              ≡ c ∷ v)
        × (choose_s_value_from_candidates is_space none none (some (c ∷ v)) second_ip ≡ c ∷ v)
  unfolding choose_s_value_from_candidates
  choose_again station name incoming ip second_name second_incoming second_ip c v chosen =
      let same : sanitize_s is_space (some (c ∷ v)) ≡ c ∷ v = sanitize_s_safe (c ∷ v) (
        subst IsSourceValue chosen
          (choose_s_value_from_candidates-IsSourceValue is_space station name incoming ip)) in
      (same, (λ named. rw named same), same)
