-- ===== src/SourceIdentity/Disjoint.antt =====
-- core/source_identity.py: the identities of plain and of authenticated peers.
use aismixer.Prelude.{Option, none, some, [], ◌∷◌, ◌≡◌, refl, arith, Text, Option-cases, inl, inr}
use aismixer.SourceIdentity.{first_non_empty, build_udp_source_id, build_udpsec_source_id}

-- A peer, with what its source identity is built from: a configured ID, a mapped alias and the
-- remote address, or the authenticated station.
pub data Peer : Type 0 where
  plain : Option Text → Option Text → Option Text → Peer
  secure : Option Text → Peer

abbrev pub source_id : Peer → Option Text
source_id (plain configured alias ip) = build_udp_source_id configured alias ip
source_id (secure station) = build_udpsec_source_id station

-- The same station, or the same first text of the three that is not empty.
abbrev pub Same : Peer → Peer → Type 0
Same (plain a b c) (plain d e f) =
    first_non_empty (a ∷ b ∷ c ∷ []) ≡ first_non_empty (d ∷ e ∷ f ∷ [])
Same (plain a b c) (secure t) = ⊥
Same (secure s) (plain d e f) = ⊥
Same (secure s) (secure t) = s ≡ t

first_of :
    (a b c : Option Text) (x : Text)
    → build_udp_source_id a b c ≡ some x
    → (y : Text) × (first_non_empty (a ∷ b ∷ c ∷ []) ≡ some y) × (x ≡ 117 ∷ 100 ∷ 112 ∷ 58 ∷ y)
unfolding build_udp_source_id
first_of a b c x h = elim (Option-cases (first_non_empty (a ∷ b ∷ c ∷ []))) [
  | inl no_identity ↦ absurd (ground arith)
  | inr (y, e) ↦ (y, e, ground arith)
]

station_of :
    (s : Option Text) (x : Text)
    → build_udpsec_source_id s ≡ some x
    → (y : Text) × (s ≡ some y) × (x ≡ 117 ∷ 100 ∷ 112 ∷ 115 ∷ 101 ∷ 99 ∷ 58 ∷ y)
unfolding build_udpsec_source_id
station_of none x h = absurd (ground arith)
station_of (some []) x h = absurd (ground arith)
station_of (some (c ∷ v)) x h = (c ∷ v, refl, ground arith)

-- Two peers with the same source identity are of the same kind: either both are authenticated, as
-- the same station, or both are plain, with the same first text, of the configured ID, the alias and
-- the address, that is not empty.
pub source_id-Same :
    (p q : Peer) (identity : Text)
    → source_id p ≡ some identity
    → source_id q ≡ some identity
    → Same p q
source_id-Same (plain a b c) (plain d e f) x h k =
    let (y, i, m) = first_of a b c x h in let (z, j, n) = first_of d e f x k in ground arith
source_id-Same (plain a b c) (secure t) x h k =
    let (y, i, m) = first_of a b c x h in let (z, j, n) = station_of t x k in ground arith
source_id-Same (secure s) (plain d e f) x h k =
    let (y, i, m) = station_of s x h in let (z, j, n) = first_of d e f x k in ground arith
source_id-Same (secure s) (secure t) x h k =
    let (y, i, m) = station_of s x h in let (z, j, n) = station_of t x k in ground arith
