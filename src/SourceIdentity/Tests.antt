-- ===== src/SourceIdentity/Tests.antt =====
-- The theorem at two plain peers that are named alike.
use aismixer.Prelude.{none, some, ◌≡◌, refl, codes, [], ◌∷◌}
use aismixer.SourceIdentity.{first_non_empty, build_udp_source_id, build_udpsec_source_id}
use aismixer.SourceIdentity.Disjoint.{plain, source_id-Same}

secure_is_other : build_udpsec_source_id (some (codes "a")) ≡ some (codes "udpsec:a")
unfolding build_udpsec_source_id
secure_is_other = refl

source_id-Same_example :
    first_non_empty (none ∷ some (codes "sec:a") ∷ none ∷ [])
    ≡ first_non_empty (some [] ∷ none ∷ some (codes "sec:a") ∷ [])
unfolding build_udp_source_id
source_id-Same_example =
    source_id-Same (plain none (some (codes "sec:a")) none)
      (plain (some []) none (some (codes "sec:a"))) (codes "udp:sec:a") refl refl
