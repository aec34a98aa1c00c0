-- ===== src/SecureState.antt =====
-- aismixer_secure.py: `SecureState`, the sessions of the secure listener. Ciphers are values of an
-- unknown type. A session is an object that callers hold: its `id` tells two sessions apart where
-- the code compares by `is`, and a handle is the address and the id. Addresses and nonces are
-- texts; times are whole ticks, and `now - t < d` is written `now < t + d`.
pub mod Expiring
pub mod Sessions
pub mod Nonces
pub mod Tables
pub mod Balance
pub mod Steps
pub mod Operations
pub mod Accepting
pub mod Stats
pub mod Calls
pub mod Promotion
mod Tests
use aismixer.Prelude.{
  ℕ, ◌+◌, ◌-◌, Bool, true, false, Option, none, some, List, [], ◌∷◌, Text, ltb, nat_beq, max,
  if◌then◌else◌, length,
}
use aismixer.Prelude.Dict.{Dict}
use aismixer.SecureState.Expiring.{ExpiringSet, Admission, empty_set, accept, discard_all, size}

pub record SecureSession (C : Type 0) : Type 0 where
  pub id : ℕ
  pub station_id : Text
  pub client_to_server : C
  pub server_to_client : C
  pub created_at : ℕ
  pub last_seen : ℕ
  pub seen_data_nonces : ExpiringSet Text

pub record PendingSession (C : Type 0) : Type 0 where
  pub id : ℕ
  pub station_id : Text
  pub client_to_server : C
  pub server_to_client : C
  pub created_at : ℕ
  pub seen_data_nonces : ExpiringSet Text

-- what a caller holds of a session, and of a pending one
pub record Handle : Type 0 where
  pub address : Text
  pub id : ℕ

-- the counters of the three tables
pub record ReplayCounters : Type 0 where
  pub accepted : ℕ
  pub rejected : ℕ
  pub expired : ℕ
  pub capacity_evicted : ℕ
  pub peak : ℕ

pub record SessionCounters : Type 0 where
  pub created : ℕ
  pub replaced : ℕ
  pub touched : ℕ
  pub expired : ℕ
  pub capacity_evicted : ℕ
  pub peak : ℕ

pub record PendingCounters : Type 0 where
  pub created : ℕ
  pub replaced : ℕ
  pub promoted : ℕ
  pub expired : ℕ
  pub capacity_evicted : ℕ
  pub peak : ℕ

pub record NonceCounters : Type 0 where
  pub accepted : ℕ
  pub replays : ℕ
  pub expired : ℕ
  pub capacity_evicted : ℕ
  pub session_discarded : ℕ
  pub current : ℕ
  pub peak : ℕ

pub record Limits : Type 0 where
  pub session_ttl : ℕ
  pub max_sessions : ℕ
  pub handshake_replay_ttl : ℕ
  pub handshake_replay_max : ℕ
  pub data_nonce_ttl : ℕ
  pub data_nonce_max_per_session : ℕ
  pub pending_session_ttl : ℕ
  pub max_pending_sessions : ℕ

pub record SecureState (C : Type 0) : Type 0 where
  pub limits : Limits
  pub handshake_replays : ExpiringSet Text
  pub sessions : Dict Text (SecureSession C)
  pub pending_sessions : Dict Text (PendingSession C)
  pub next_id : ℕ
  pub replay_counters : ReplayCounters
  pub session_counters : SessionCounters
  pub pending_counters : PendingCounters
  pub nonce_counters : NonceCounters

-- `_validate_positive_int` and `_validate_positive_ttl`, on a whole number
abbrev pub is_positive : ℕ → Bool
is_positive value = ltb 0 value

abbrev pub are_positive : Limits → Bool
are_positive l =
    if is_positive l.session_ttl
    then if is_positive l.max_sessions
      then if is_positive l.pending_session_ttl
        then if is_positive l.max_pending_sessions
          then if is_positive l.handshake_replay_ttl
            then if is_positive l.handshake_replay_max
              then if is_positive l.data_nonce_ttl
                then is_positive l.data_nonce_max_per_session
                else false
              else false
            else false
          else false
        else false
      else false
    else false

abbrev pub new_state : {C : Type 0} → Limits → SecureState C
new_state limits = record {
  limits = limits;
  handshake_replays = empty_set limits.handshake_replay_ttl limits.handshake_replay_max;
  sessions = [];
  pending_sessions = [];
  next_id = 0;
  replay_counters = record {
    accepted = 0;
    rejected = 0;
    expired = 0;
    capacity_evicted = 0;
    peak = 0;
  };
  session_counters = record {
    created = 0;
    replaced = 0;
    touched = 0;
    expired = 0;
    capacity_evicted = 0;
    peak = 0;
  };
  pending_counters = record {
    created = 0;
    replaced = 0;
    promoted = 0;
    expired = 0;
    capacity_evicted = 0;
    peak = 0;
  };
  nonce_counters = record {
    accepted = 0;
    replays = 0;
    expired = 0;
    capacity_evicted = 0;
    session_discarded = 0;
    current = 0;
    peak = 0;
  };
}

-- the constructor; `none` where a limit is refused
unfoldable pub init : {C : Type 0} → Limits → Option (SecureState C)
init limits = if are_positive limits then some (new_state limits) else none
