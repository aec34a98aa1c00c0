-- ===== src/SourceIdentity.antt =====
-- core/source_identity.py: the source identities that routing and assembly work with. `none` where
-- the code raises ValueError.
pub mod Disjoint
mod Tests
use aismixer.Prelude.{Option, none, some, List, [], ◌∷◌, ◌++◌, Text, codes}

-- `_first_non_empty`
unfoldable pub first_non_empty : List (Option Text) → Option Text
first_non_empty [] = none
first_non_empty (none ∷ rest) = first_non_empty rest
first_non_empty (some [] ∷ rest) = first_non_empty rest
first_non_empty (some (c ∷ v) ∷ rest) = some (c ∷ v)

abbrev pub prefixed : Text → Option Text → Option Text
prefixed prefix none = none
prefixed prefix (some identity) = some (prefix ++ identity)

unfoldable pub build_udp_source_id : Option Text → Option Text → Option Text → Option Text
unfolding first_non_empty
build_udp_source_id configured_id mapped_alias remote_ip =
    prefixed (codes "udp:") (first_non_empty (configured_id ∷ mapped_alias ∷ remote_ip ∷ []))

unfoldable pub build_udpsec_source_id : Option Text → Option Text
build_udpsec_source_id none = none
build_udpsec_source_id (some []) = none
build_udpsec_source_id (some (c ∷ v)) = some (codes "udpsec:" ++ c ∷ v)
