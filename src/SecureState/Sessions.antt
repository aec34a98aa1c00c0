-- ===== src/SecureState/Sessions.antt =====
-- aismixer_secure.py: installing, removing, promoting and touching the sessions of `SecureState`.
use aismixer.Prelude.{
  ℕ, ◌+◌, ◌-◌, Bool, true, false, Option, none, some, List, [], ◌∷◌, ◌++◌, Text, text_eq, ltb, leb,
  nat_beq, max, if◌then◌else◌, length, key_error, Exec, pure, raise, ◌>>=◌, ◌>>◌,
}
use aismixer.Prelude.Dict.{Dict, lookup, contains, insert, remove}
use aismixer.SecureState.{
  SecureSession, PendingSession, Handle, SessionCounters, PendingCounters, NonceCounters,
  SecureState,
}
use aismixer.SecureState.Expiring.{ExpiringSet, empty_set, discard_all}

-- the reasons that the callers give
pub data Reason : Type 0 where
  expired_reason capacity_reason replaced_reason : Reason

unfoldable pub count_session_removal : Reason → SessionCounters → SessionCounters
count_session_removal expired_reason c = record c { expired = c.expired + 1 }
count_session_removal capacity_reason c = record c { capacity_evicted = c.capacity_evicted + 1 }
count_session_removal replaced_reason c = record c { replaced = c.replaced + 1 }

unfoldable pub count_pending_removal : Reason → PendingCounters → PendingCounters
count_pending_removal expired_reason c = record c { expired = c.expired + 1 }
count_pending_removal capacity_reason c = record c { capacity_evicted = c.capacity_evicted + 1 }
count_pending_removal replaced_reason c = record c { replaced = c.replaced + 1 }

-- `_discard_session_nonces`, on the counters
abbrev pub discard_nonces : ExpiringSet Text → NonceCounters → NonceCounters
discard_nonces nonces c =
    let (discarded, _) = discard_all nonces in
    record c {
      current = c.current - discarded;
      session_discarded = c.session_discarded + discarded;
    }

-- `next(iter(table))`; the table has a first key wherever it is called
abbrev pub first_key : {V : Type 0} → Dict Text V → Text → Text
first_key [] none_there = none_there
first_key ((addr, v) ∷ rest) none_there = addr

module _ {C : Type 0} where
  abbrev pub without_session : Text → Reason → SecureSession C → SecureState C → SecureState C
  without_session addr reason session s = record s {
    sessions = remove addr s.sessions;
    nonce_counters = discard_nonces session.seen_data_nonces s.nonce_counters;
    session_counters = count_session_removal reason s.session_counters;
  }

  unfoldable pub remove_session : Text → Reason → Exec (SecureState C) (Unit {0})
  unfolding count_session_removal discard_all
  remove_session addr reason s = elim (lookup addr s.sessions) [
    | none ↦ raise key_error s
    | some session ↦ pure tt (without_session addr reason session s)
  ]

  abbrev pub without_pending : Text → Reason → PendingSession C → SecureState C → SecureState C
  without_pending addr reason pending s = record s {
    pending_sessions = remove addr s.pending_sessions;
    nonce_counters = discard_nonces pending.seen_data_nonces s.nonce_counters;
    pending_counters = count_pending_removal reason s.pending_counters;
  }

  unfoldable pub remove_pending_session : Text → Reason → Exec (SecureState C) (Unit {0})
  unfolding count_pending_removal discard_all
  remove_pending_session addr reason s = elim (lookup addr s.pending_sessions) [
    | none ↦ raise key_error s
    | some pending ↦ pure tt (without_pending addr reason pending s)
  ]

  -- the loop over the sessions, the first one first
  unfoldable pub expire_sessions :
      ℕ → Dict Text (SecureSession C) → Exec (SecureState C) (List Text)
  unfolding remove_session
  expire_sessions now [] s = pure [] s
  expire_sessions now ((addr, session) ∷ rest) s =
      let removed =
        (do
          remove_session addr expired_reason
          others ← expire_sessions now rest
          pure (addr ∷ others))
          s in
      if ltb now (session.last_seen + s.limits.session_ttl) then pure [] s else removed

  unfoldable pub cleanup_expired_sessions : ℕ → Exec (SecureState C) (List Text)
  unfolding expire_sessions
  cleanup_expired_sessions now s = expire_sessions now s.sessions s

  unfoldable pub expire_pending :
      ℕ → Dict Text (PendingSession C) → Exec (SecureState C) (List Text)
  unfolding remove_pending_session
  expire_pending now [] s = pure [] s
  expire_pending now ((addr, pending) ∷ rest) s =
      let removed =
        (do
          remove_pending_session addr expired_reason
          others ← expire_pending now rest
          pure (addr ∷ others))
          s in
      if ltb now (pending.created_at + s.limits.pending_session_ttl) then pure [] s else removed

  unfoldable pub cleanup_expired_pending_sessions : ℕ → Exec (SecureState C) (List Text)
  unfolding expire_pending
  cleanup_expired_pending_sessions now s = expire_pending now s.pending_sessions s

  -- A session of the address is replaced; otherwise, if there is no room, the oldest goes.
  unfoldable pub make_session_room : Text → Exec (SecureState C) (Unit {0})
  unfolding remove_session
  make_session_room addr s =
      if contains addr s.sessions
      then remove_session addr replaced_reason s
      else if leb s.limits.max_sessions (length s.sessions)
      then remove_session (first_key s.sessions addr) capacity_reason s
      else pure tt s

  unfoldable pub make_pending_room : Text → Exec (SecureState C) (Unit {0})
  unfolding remove_pending_session
  make_pending_room addr s =
      if contains addr s.pending_sessions
      then remove_pending_session addr replaced_reason s
      else if leb s.limits.max_pending_sessions (length s.pending_sessions)
      then remove_pending_session (first_key s.pending_sessions addr) capacity_reason s
      else pure tt s

  unfoldable pub store_session :
      Text → Text → C → C → ℕ → ExpiringSet Text → Exec (SecureState C) Handle
  store_session addr station_id client_to_server server_to_client now nonces s =
      let session : SecureSession C = record {
        id = s.next_id;
        station_id = station_id;
        client_to_server = client_to_server;
        server_to_client = server_to_client;
        created_at = now;
        last_seen = now;
        seen_data_nonces = nonces;
      } in
      let sessions = insert addr session s.sessions in
      pure (record { address = addr; id = s.next_id })
        (record s {
          sessions = sessions;
          next_id = s.next_id + 1;
          session_counters = record s.session_counters {
            created = s.session_counters.created + 1;
            peak = max s.session_counters.peak (length sessions);
          };
        })

  abbrev pub fresh_nonces : SecureState C → ExpiringSet Text
  fresh_nonces s = empty_set s.limits.data_nonce_ttl s.limits.data_nonce_max_per_session

  unfoldable pub install_session : Text → Text → C → C → ℕ → Exec (SecureState C) Handle
  unfolding cleanup_expired_sessions make_session_room store_session
  install_session addr station_id client_to_server server_to_client now = do
    cleanup_expired_sessions now
    make_session_room addr
    λ s. store_session addr station_id client_to_server server_to_client now (fresh_nonces s) s

  unfoldable pub store_pending : Text → Text → C → C → ℕ → Exec (SecureState C) Handle
  store_pending addr station_id client_to_server server_to_client now s =
      let pending : PendingSession C = record {
        id = s.next_id;
        station_id = station_id;
        client_to_server = client_to_server;
        server_to_client = server_to_client;
        created_at = now;
        seen_data_nonces = fresh_nonces s;
      } in
      let pending_sessions = insert addr pending s.pending_sessions in
      pure (record { address = addr; id = s.next_id })
        (record s {
          pending_sessions = pending_sessions;
          next_id = s.next_id + 1;
          pending_counters = record s.pending_counters {
            created = s.pending_counters.created + 1;
            peak = max s.pending_counters.peak (length pending_sessions);
          };
        })

  unfoldable pub install_pending_session : Text → Text → C → C → ℕ → Exec (SecureState C) Handle
  unfolding cleanup_expired_pending_sessions make_pending_room store_pending
  install_pending_session addr station_id client_to_server server_to_client now = do
    cleanup_expired_pending_sessions now
    make_pending_room addr
    store_pending addr station_id client_to_server server_to_client now

  unfoldable pub get_active_session : Text → ℕ → Exec (SecureState C) (Option (SecureSession C))
  unfolding cleanup_expired_sessions
  get_active_session addr now = do
    cleanup_expired_sessions now
    λ s. pure (lookup addr s.sessions) s

  unfoldable pub get_pending_session : Text → ℕ → Exec (SecureState C) (Option (PendingSession C))
  unfolding cleanup_expired_pending_sessions
  get_pending_session addr now = do
    cleanup_expired_pending_sessions now
    λ s. pure (lookup addr s.pending_sessions) s

  -- the session of the handle, if it stands in the table
  abbrev pub held_session : Handle → SecureState C → Option (SecureSession C)
  held_session h s = elim (lookup h.address s.sessions) [
    | none ↦ none
    | some session ↦ if nat_beq session.id h.id then some session else none
  ]

  abbrev pub held_pending : Handle → SecureState C → Option (PendingSession C)
  held_pending h s = elim (lookup h.address s.pending_sessions) [
    | none ↦ none
    | some pending ↦ if nat_beq pending.id h.id then some pending else none
  ]

  unfoldable pub get_live_session_handle :
      Handle → ℕ → Exec (SecureState C) (Option (SecureSession C))
  unfolding cleanup_expired_sessions
  get_live_session_handle h now s = elim (held_session h s) [
    | none ↦ pure none s
    | some _ ↦ (do cleanup_expired_sessions now; λ t. pure (held_session h t) t) s
  ]

  unfoldable pub get_live_pending_session_handle :
      Handle → ℕ → Exec (SecureState C) (Option (PendingSession C))
  unfolding cleanup_expired_pending_sessions
  get_live_pending_session_handle h now s = elim (held_pending h s) [
    | none ↦ pure none s
    | some _ ↦ (do cleanup_expired_pending_sessions now; λ t. pure (held_pending h t) t) s
  ]

  -- `_touch_active_session`: the session goes to the end of the order
  unfoldable pub touch_active_session : Text → SecureSession C → ℕ → SecureState C → SecureState C
  touch_active_session addr session now s = record s {
    sessions = remove addr s.sessions ++ (addr, record session { last_seen = now }) ∷ [];
    session_counters = record s.session_counters { touched = s.session_counters.touched + 1 };
  }

  unfoldable pub touch_session : Handle → ℕ → Exec (SecureState C) Bool
  unfolding get_live_session_handle touch_active_session
  touch_session h now = do
    live ← get_live_session_handle h now
    elim live [
      | none ↦ pure false
      | some session ↦ λ s. pure true (touch_active_session h.address session now s)
    ]

  -- the pending session leaves its table with its nonces
  unfoldable pub take_pending : Text → SecureState C → SecureState C
  take_pending addr s = record s {
    pending_sessions = remove addr s.pending_sessions;
    pending_counters = record s.pending_counters { promoted = s.pending_counters.promoted + 1 };
  }

  -- the pending session of a live handle becomes a session, with its nonces
  unfoldable pub promote_found :
      Handle → ℕ → PendingSession C → Exec (SecureState C) (Option Handle)
  unfolding cleanup_expired_sessions take_pending make_session_room store_session
  promote_found h now pending = do
    cleanup_expired_sessions now
    λ s. pure tt (take_pending h.address s)
    make_session_room h.address
    session ←
        store_session h.address pending.station_id pending.client_to_server pending.server_to_client
          now pending.seen_data_nonces
    pure (some session)

  unfoldable pub promote_pending_session : Handle → ℕ → Exec (SecureState C) (Option Handle)
  unfolding get_live_pending_session_handle promote_found
  promote_pending_session h now = do
    live ← get_live_pending_session_handle h now
    elim live [ none ↦ pure none | some pending ↦ promote_found h now pending ]
