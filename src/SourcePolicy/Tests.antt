-- ===== src/SourcePolicy/Tests.antt =====
-- Runs of the choice, and the theorems at inputs that meet their hypotheses.
use aismixer.Prelude.{ℕ, Bool, true, none, some, [], ◌∷◌, ◌≡◌, refl, nat_beq, codes, arith}
use aismixer.SourcePolicy.{is_safe, not_anonymous, choose_s_value_from_candidates}
use aismixer.SourcePolicy.Sanitised.{
  IsSourceValue, choose_s_value_from_candidates-IsSourceValue, choose_again,
}

abbrev blank : ℕ → Bool
blank c = nat_beq c 32

choose_ip :
    choose_s_value_from_candidates blank none none none (some (codes "10.0.0.1")) ≡ codes "10_0_0_1"
unfolding choose_s_value_from_candidates is_safe
choose_ip = refl

choose_s_value_from_candidates-IsSourceValue_example :
    IsSourceValue (choose_s_value_from_candidates blank none (some (codes "a b")) none none)
choose_s_value_from_candidates-IsSourceValue_example =
    choose_s_value_from_candidates-IsSourceValue blank none (some (codes "a b")) none none

choose_again_example :
    (choose_s_value_from_candidates blank (some (codes "a_b")) (some (codes "n")) none none
      ≡ codes "a_b")
    × (not_anonymous (some (codes "a_b")) ≡ true
        → choose_s_value_from_candidates blank none (some (codes "a_b")) none none ≡ codes "a_b")
    × (choose_s_value_from_candidates blank none none (some (codes "a_b")) none ≡ codes "a_b")
unfolding choose_s_value_from_candidates is_safe
choose_again_example =
    choose_again blank (λ c h. ground arith) none (some (codes " a b ")) none none
      (some (codes "n")) none none 97 (95 ∷ 98 ∷ []) refl
