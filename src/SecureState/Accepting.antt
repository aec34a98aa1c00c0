-- ===== src/SecureState/Accepting.antt =====
-- aismixer_secure.py: the replay checks of `SecureState`, and the invariant.
use aismixer.Prelude.{
  ℕ, ◌+◌, ◌≤◌, Bool, true, false, some, [], ◌∷◌, ◌≡◌, refl, ap, arith, Text, nat_eq, text_eq,
  if◌then◌else◌, length, Bool-cases, Option-cases, inl, inr,
}
use aismixer.Prelude.Dict.{Dict, lookup}
use aismixer.SecureState.{Handle, NonceCounters, ReplayCounters, SecureState}
use aismixer.SecureState.Expiring.{ExpiringSet, Admission, size, contains_key}
use aismixer.SecureState.Expiring.Sync.{IsSynced, contains_key-Cleaned, accept-Accepted}
use aismixer.SecureState.Nonces.{
  account_expired, count_nonce, count_seen, count_replay, data_nonce_seen, pending_data_nonce_seen,
  accept_data_nonce, accept_pending_data_nonce, accept_handshake_replay, with_nonces,
  with_pending_nonces, settle_replay, settle_nonce, settle_pending_nonce,
}
use aismixer.SecureState.Balance.{Keeps, NoncesCounted, ReplaysCounted}
use aismixer.SecureState.Operations.{
  IsValid, get_live-LiveSession, get_live-LivePending, update_session, update_pending,
}

-- what a check of a nonce does to the counters
seen-NoncesCounted :
    (seen : Bool) (expired old left n m : ℕ) (c : NonceCounters)
    → old ≡ left + expired
    → NoncesCounted n c
    → n ≡ old + m
    → NoncesCounted (left + m) (count_seen seen (account_expired expired c))
seen-NoncesCounted true expired old left n m c e h q = record {
  current = omega (arith, h.current, e, q);
  accepted = omega (arith, h.accepted, e, q);
  peak = omega (arith, h.peak, e, q);
}
seen-NoncesCounted false expired old left n m c e h q = record {
  current = omega (arith, h.current, e, q);
  accepted = omega (arith, h.accepted, e, q);
  peak = omega (arith, h.peak, e, q);
}

-- and what an admission does
admission-NoncesCounted :
    (a : Admission) (old left n m : ℕ) (c : NonceCounters)
    → old + (if a.accepted then 1 else 0) ≡ left + (a.expired + a.capacity_evicted)
    → (a.accepted ≡ true → 1 ≤ left)
    → NoncesCounted n c
    → n ≡ old + m
    → NoncesCounted (left + m) (count_nonce a c)
unfolding count_nonce
admission-NoncesCounted a old left n m c e some_left h q = elim (Bool-cases a.accepted) [
  | inl took ↦
      let l = some_left took in
      rw took (record {
        current = omega (arith, h.current, rw took at e, q, l);
        accepted = omega (arith, h.accepted, h.current, rw took at e, q, l);
        peak = omega (arith, h.peak, h.current, rw took at e, q, l);
      })
  | inr left_out ↦ rw left_out (record {
    current = omega (arith, h.current, rw left_out at e, q);
    accepted = omega (arith, h.accepted, rw left_out at e, q);
    peak = omega (arith, h.peak, rw left_out at e, q);
  })
]

some_entry : {V : Type 0} (d : Dict Text V) (k : Text) (v : V) → lookup k d ≡ some v → 1 ≤ length d
unfolding lookup
some_entry [] k v h = absurd (ground arith)
some_entry ((j, w) ∷ d) k v h = omega arith

-- What `accept` on a set of nonces does to the counters.
recount_accepted :
    (nonce : Text) (now : ℕ) (nonces : ExpiringSet Text) (synced : IsSynced nonces)
    (c : NonceCounters) (n m : ℕ)
    → NoncesCounted n c
    → n ≡ size nonces + m
    → NoncesCounted
        (size (accept-Accepted nonce now nonces synced).after + m)
        (count_nonce (accept-Accepted nonce now nonces synced).admission c)
recount_accepted nonce now nonces synced c n m =
    let a = accept-Accepted nonce now nonces synced in
    admission-NoncesCounted a.admission (size nonces) (size a.after) n m c a.counts
      (λ took. (let (r, there, at) = a.new took in some_entry a.after.live_by_key nonce r there))

replay-ReplaysCounted :
    (a : Admission) (old left : ℕ) (c : ReplayCounters)
    → old + (if a.accepted then 1 else 0) ≡ left + (a.expired + a.capacity_evicted)
    → ReplaysCounted old c
    → ReplaysCounted left (count_replay a left c)
replay-ReplaysCounted a old left c e h = elim (Bool-cases a.accepted) [
  | inl took ↦ rw took (record {
    accepted = omega (arith, h.accepted, rw took at e);
    peak = omega (arith, h.peak, rw took at e);
  })
  | inr left_out ↦ rw left_out (record {
    accepted = omega (arith, h.accepted, rw left_out at e);
    peak = omega (arith, h.peak, rw left_out at e);
  })
]

module _ {C : Type 0} (Known : Text → Type 0) where
  pub data_nonce_seen-Keeps :
      (h : Handle) (nonce : Text) (now : ℕ) (s : SecureState C)
      → IsValid Known s
      → Keeps Known 0 (data_nonce_seen h nonce now) s
  unfolding data_nonce_seen
  data_nonce_seen-Keeps h nonce now s i =
      let l = get_live-LiveSession Known h now s i in
      elim (Option-cases l.found) [
        | inl gone ↦ record {
          result = false;
          after = l.after;
          runs = rw (l.runs, gone) refl;
          holds = l.holds;
          limits = l.limits;
        }
        | inr (v, there) ↦
            let (synced, known) = l.holds.sessions.all h.address v (l.stands v there) in
            let c = contains_key-Cleaned nonce now v.seen_data_nonces synced in
            let ((seen, expired), nonces) = contains_key nonce now v.seen_data_nonces in
            let counters = count_seen seen (account_expired expired l.after.nonce_counters) in
            record {
              result = seen;
              after = record (with_nonces h.address v nonces l.after) { nonce_counters = counters };
              runs = rw (l.runs, there) refl;
              holds =
                  update_session Known h.address v nonces counters l.after l.holds
                    (l.stands v there) c.synced
                    (λ n m.
                      seen-NoncesCounted seen expired (size v.seen_data_nonces) (size nonces) n m
                        l.after.nonce_counters c.counts);
              limits = l.limits;
            }
      ]

  pub pending_data_nonce_seen-Keeps :
      (h : Handle) (nonce : Text) (now : ℕ) (s : SecureState C)
      → IsValid Known s
      → Keeps Known 0 (pending_data_nonce_seen h nonce now) s
  unfolding pending_data_nonce_seen
  pending_data_nonce_seen-Keeps h nonce now s i =
      let l = get_live-LivePending Known h now s i in
      elim (Option-cases l.found) [
        | inl gone ↦ record {
          result = false;
          after = l.after;
          runs = rw (l.runs, gone) refl;
          holds = l.holds;
          limits = l.limits;
        }
        | inr (v, there) ↦
            let (synced, known) = l.holds.pending.all h.address v (l.stands v there) in
            let c = contains_key-Cleaned nonce now v.seen_data_nonces synced in
            let ((seen, expired), nonces) = contains_key nonce now v.seen_data_nonces in
            let counters = account_expired expired l.after.nonce_counters in
            record {
              result = seen;
              after = record (with_pending_nonces h.address v nonces l.after) {
                nonce_counters = counters;
              };
              runs = rw (l.runs, there) refl;
              holds =
                  update_pending Known h.address v nonces counters l.after l.holds
                    (l.stands v there) c.synced
                    (λ n m.
                      seen-NoncesCounted false expired (size v.seen_data_nonces) (size nonces) n m
                        l.after.nonce_counters c.counts);
              limits = l.limits;
            }
      ]

  pub accept_data_nonce-Keeps :
      (h : Handle) (nonce : Text) (now : ℕ) (s : SecureState C)
      → IsValid Known s
      → Keeps Known 0 (accept_data_nonce h nonce now) s
  unfolding accept_data_nonce
  accept_data_nonce-Keeps h nonce now s i =
      let l = get_live-LiveSession Known h now s i in
      elim (Option-cases l.found) [
        | inl gone ↦ record {
          result = false;
          after = l.after;
          runs = rw (l.runs, gone) refl;
          holds = l.holds;
          limits = l.limits;
        }
        | inr (v, there) ↦
            let synced = (l.holds.sessions.all h.address v (l.stands v there)).0 in
            let a = accept-Accepted nonce now v.seen_data_nonces synced in
            let counters = count_nonce a.admission l.after.nonce_counters in
            record {
              result = a.admission.accepted;
              after = record (with_nonces h.address v a.after l.after) {
                nonce_counters = counters;
              };
              runs = rw (l.runs, there) (ap (λ x. settle_nonce h.address v x l.after) a.runs);
              holds =
                  update_session Known h.address v a.after counters l.after l.holds
                    (l.stands v there) a.synced
                    (recount_accepted nonce now v.seen_data_nonces synced l.after.nonce_counters);
              limits = l.limits;
            }
      ]

  pub accept_pending_data_nonce-Keeps :
      (h : Handle) (nonce : Text) (now : ℕ) (s : SecureState C)
      → IsValid Known s
      → Keeps Known 0 (accept_pending_data_nonce h nonce now) s
  unfolding accept_pending_data_nonce
  accept_pending_data_nonce-Keeps h nonce now s i =
      let l = get_live-LivePending Known h now s i in
      elim (Option-cases l.found) [
        | inl gone ↦ record {
          result = false;
          after = l.after;
          runs = rw (l.runs, gone) refl;
          holds = l.holds;
          limits = l.limits;
        }
        | inr (v, there) ↦
            let synced = (l.holds.pending.all h.address v (l.stands v there)).0 in
            let a = accept-Accepted nonce now v.seen_data_nonces synced in
            let counters = count_nonce a.admission l.after.nonce_counters in
            record {
              result = a.admission.accepted;
              after = record (with_pending_nonces h.address v a.after l.after) {
                nonce_counters = counters;
              };
              runs =
                  rw (l.runs, there) (ap (λ x. settle_pending_nonce h.address v x l.after) a.runs);
              holds =
                  update_pending Known h.address v a.after counters l.after l.holds
                    (l.stands v there) a.synced
                    (recount_accepted nonce now v.seen_data_nonces synced l.after.nonce_counters);
              limits = l.limits;
            }
      ]

  pub accept_handshake_replay-Keeps :
      (key : Text) (now : ℕ) (s : SecureState C)
      → IsValid Known s
      → Keeps Known 0 (accept_handshake_replay key now) s
  unfolding accept_handshake_replay
  accept_handshake_replay-Keeps key now s i =
      let a = accept-Accepted key now s.handshake_replays i.replays in
      record {
        result = a.admission.accepted;
        after = record s {
          handshake_replays = a.after;
          replay_counters = count_replay a.admission (size a.after) s.replay_counters;
        };
        runs = ap (λ x. settle_replay x s) a.runs;
        limits = refl;
        holds = record {
          sessions = i.sessions;
          pending = i.pending;
          nonce_room = i.nonce_room;
          replays = a.synced;
          sessions_counted = i.sessions_counted;
          pending_counted = i.pending_counted;
          replays_counted =
              replay-ReplaysCounted a.admission (size s.handshake_replays) (size a.after)
                s.replay_counters a.counts i.replays_counted;
          nonces_counted = i.nonces_counted;
        };
      }
