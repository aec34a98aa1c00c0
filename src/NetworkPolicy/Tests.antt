-- ===== src/NetworkPolicy/Tests.antt =====
-- The theorem at a library of one-character addresses, in which a network is a single address.
use aismixer.Prelude.{
  refl, ℕ, true, Option, none, some, List, [], ◌∷◌, ◌≡◌, Text, nat_beq, leb, if◌then◌else◌,
}
use aismixer.NetworkPolicy.{IpLibrary, NetworkPolicy, compile_ingress_policy, allows}
use aismixer.NetworkPolicy.Decision.{Covered, compile_ingress_policy-allows}

abbrev first_of : Text → Option ℕ
first_of [] = none
first_of (c ∷ v) = some c

-- Letters are of version 4, digits of version 6, and 6 is mapped to b.
abbrev version : ℕ → ℕ
version c = if leb 97 c then 4 else 6

abbrev letters : IpLibrary ℕ ℕ
letters = record {
  ip_address = first_of;
  ip_network = first_of;
  host_network = λ a. a;
  ipv4_mapped = λ a. if nat_beq a 54 then some 98 else none;
  address_version = version;
  network_version = version;
  is_in = nat_beq;
  strip = λ v. v;
}

abbrev allowed : List Text
allowed = (97 ∷ []) ∷ (98 ∷ 47 ∷ []) ∷ []

abbrev policy : NetworkPolicy ℕ
policy = record { networks = some (97 ∷ 98 ∷ []) }

mapped_allowed : allows letters policy (54 ∷ []) ≡ true
unfolding allows
mapped_allowed = refl

compile_ingress_policy-allows_example :
    (allows letters policy (54 ∷ []) ≡ true → Covered letters allowed (54 ∷ []))
    × (Covered letters allowed (54 ∷ []) → allows letters policy (54 ∷ []) ≡ true)
unfolding compile_ingress_policy
compile_ingress_policy-allows_example =
    compile_ingress_policy-allows letters allowed policy (54 ∷ []) refl
