-- ===== src/SecureState/Nonces.antt =====
-- aismixer_secure.py: the replay checks of `SecureState`, for handshakes and for the nonces of
-- secure data.
use aismixer.Prelude.{
  ℕ, ◌+◌, ◌-◌, Bool, false, none, some, Text, text_eq, max, if◌then◌else◌, Result, ok, err, Exec,
  pure, raise, ◌>>=◌,
}
use aismixer.Prelude.Dict.{insert}
use aismixer.SecureState.{
  SecureSession, PendingSession, Handle, ReplayCounters, NonceCounters, SecureState,
}
use aismixer.SecureState.Expiring.{ExpiringSet, Admission, accept, contains_key, size}
use aismixer.SecureState.Sessions.{get_live_session_handle, get_live_pending_session_handle}

abbrev pub count_replay : Admission → ℕ → ReplayCounters → ReplayCounters
count_replay a current c =
    let d : ReplayCounters = record c {
      expired = c.expired + a.expired;
      capacity_evicted = c.capacity_evicted + a.capacity_evicted;
    } in
    if a.accepted
    then record d { accepted = d.accepted + 1; peak = max d.peak current }
    else record d { rejected = d.rejected + 1 }

-- `_account_expired_data_nonces`
abbrev pub account_expired : ℕ → NonceCounters → NonceCounters
account_expired n c = record c { expired = c.expired + n; current = c.current - n }

-- the counters after an admission: expired and evicted nonces first
unfoldable pub count_nonce : Admission → NonceCounters → NonceCounters
count_nonce a c =
    let b = account_expired a.expired c in
    let d : NonceCounters = record b {
      capacity_evicted = b.capacity_evicted + a.capacity_evicted;
      current = b.current - a.capacity_evicted;
    } in
    if a.accepted
    then record d {
      accepted = d.accepted + 1;
      current = d.current + 1;
      peak = max d.peak (d.current + 1);
    }
    else record d { replays = d.replays + 1 }

abbrev pub count_seen : Bool → NonceCounters → NonceCounters
count_seen seen c = if seen then record c { replays = c.replays + 1 } else c

module _ {C : Type 0} where
  -- what `accept` on the replays returns, and how it is counted
  abbrev pub settle_replay :
      Result Admission × ExpiringSet Text → SecureState C → Result Bool × SecureState C
  settle_replay (err e, replays) s = raise e (record s { handshake_replays = replays })
  settle_replay (ok a, replays) s = pure a.accepted (record s {
    handshake_replays = replays;
    replay_counters = count_replay a (size replays) s.replay_counters;
  })

  unfoldable pub accept_handshake_replay : Text → ℕ → Exec (SecureState C) Bool
  unfolding accept
  accept_handshake_replay key now s = settle_replay (accept key now s.handshake_replays) s

  -- The set of nonces belongs to the session: what changes there shows in the table.
  abbrev pub with_nonces : Text → SecureSession C → ExpiringSet Text → SecureState C → SecureState C
  with_nonces addr session nonces s = record s {
    sessions = insert addr (record session { seen_data_nonces = nonces }) s.sessions;
  }

  abbrev pub with_pending_nonces :
      Text → PendingSession C → ExpiringSet Text → SecureState C → SecureState C
  with_pending_nonces addr pending nonces s = record s {
    pending_sessions =
        insert addr (record pending { seen_data_nonces = nonces }) s.pending_sessions;
  }

  unfoldable pub data_nonce_seen : Handle → Text → ℕ → Exec (SecureState C) Bool
  unfolding get_live_session_handle contains_key
  data_nonce_seen h nonce now = do
    live ← get_live_session_handle h now
    elim live [
      | none ↦ pure false
      | some session ↦ λ s.
          (let ((seen, expired), nonces) = contains_key nonce now session.seen_data_nonces in
            pure seen (record (with_nonces h.address session nonces s) {
              nonce_counters = count_seen seen (account_expired expired s.nonce_counters);
            }))
    ]

  unfoldable pub pending_data_nonce_seen : Handle → Text → ℕ → Exec (SecureState C) Bool
  unfolding get_live_pending_session_handle contains_key
  pending_data_nonce_seen h nonce now = do
    live ← get_live_pending_session_handle h now
    elim live [
      | none ↦ pure false
      | some pending ↦ λ s.
          (let ((seen, expired), nonces) = contains_key nonce now pending.seen_data_nonces in
            pure seen (record (with_pending_nonces h.address pending nonces s) {
              nonce_counters = account_expired expired s.nonce_counters;
            }))
    ]

  -- what `accept` on the nonces of a session returns, and how it is counted
  abbrev pub settle_nonce :
      Text
      → SecureSession C
      → Result Admission × ExpiringSet Text
      → SecureState C
      → Result Bool × SecureState C
  settle_nonce addr session (err e, nonces) s = raise e (with_nonces addr session nonces s)
  settle_nonce addr session (ok a, nonces) s =
      pure a.accepted (record (with_nonces addr session nonces s) {
        nonce_counters = count_nonce a s.nonce_counters;
      })

  abbrev pub settle_pending_nonce :
      Text
      → PendingSession C
      → Result Admission × ExpiringSet Text
      → SecureState C
      → Result Bool × SecureState C
  settle_pending_nonce addr pending (err e, nonces) s =
      raise e (with_pending_nonces addr pending nonces s)
  settle_pending_nonce addr pending (ok a, nonces) s =
      pure a.accepted (record (with_pending_nonces addr pending nonces s) {
        nonce_counters = count_nonce a s.nonce_counters;
      })

  unfoldable pub accept_data_nonce : Handle → Text → ℕ → Exec (SecureState C) Bool
  unfolding get_live_session_handle accept count_nonce
  accept_data_nonce h nonce now = do
    live ← get_live_session_handle h now
    elim live [
      | none ↦ pure false
      | some session ↦
          λ s. settle_nonce h.address session (accept nonce now session.seen_data_nonces) s
    ]

  unfoldable pub accept_pending_data_nonce : Handle → Text → ℕ → Exec (SecureState C) Bool
  unfolding get_live_pending_session_handle accept count_nonce
  accept_pending_data_nonce h nonce now = do
    live ← get_live_pending_session_handle h now
    elim live [
      | none ↦ pure false
      | some pending ↦
          λ s. settle_pending_nonce h.address pending (accept nonce now pending.seen_data_nonces) s
    ]
