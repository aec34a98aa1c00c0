-- ===== src/SecureState/Stats.antt =====
-- aismixer_secure.py: `SecureState.stats`.
use aismixer.Prelude.{ℕ, length}
use aismixer.SecureState.{SecureState}
use aismixer.SecureState.Expiring.{size}

pub record SecureStateStats : Type 0 where
  pub handshake_replay_accepted : ℕ
  pub handshake_replay_rejected : ℕ
  pub handshake_replay_expired : ℕ
  pub handshake_replay_capacity_evicted : ℕ
  pub sessions_created : ℕ
  pub sessions_replaced : ℕ
  pub sessions_touched : ℕ
  pub sessions_expired : ℕ
  pub sessions_capacity_evicted : ℕ
  pub pending_sessions_created : ℕ
  pub pending_sessions_replaced : ℕ
  pub pending_sessions_promoted : ℕ
  pub pending_sessions_expired : ℕ
  pub pending_sessions_capacity_evicted : ℕ
  pub data_nonces_accepted : ℕ
  pub data_nonce_replays : ℕ
  pub data_nonces_expired : ℕ
  pub data_nonces_capacity_evicted : ℕ
  pub data_nonces_session_discarded : ℕ
  pub current_handshake_replays : ℕ
  pub peak_handshake_replays : ℕ
  pub current_sessions : ℕ
  pub peak_sessions : ℕ
  pub current_pending_sessions : ℕ
  pub peak_pending_sessions : ℕ
  pub current_data_nonces : ℕ
  pub peak_data_nonces : ℕ

unfoldable pub stats : {C : Type 0} → SecureState C → SecureStateStats
stats s = record {
  handshake_replay_accepted = s.replay_counters.accepted;
  handshake_replay_rejected = s.replay_counters.rejected;
  handshake_replay_expired = s.replay_counters.expired;
  handshake_replay_capacity_evicted = s.replay_counters.capacity_evicted;
  sessions_created = s.session_counters.created;
  sessions_replaced = s.session_counters.replaced;
  sessions_touched = s.session_counters.touched;
  sessions_expired = s.session_counters.expired;
  sessions_capacity_evicted = s.session_counters.capacity_evicted;
  pending_sessions_created = s.pending_counters.created;
  pending_sessions_replaced = s.pending_counters.replaced;
  pending_sessions_promoted = s.pending_counters.promoted;
  pending_sessions_expired = s.pending_counters.expired;
  pending_sessions_capacity_evicted = s.pending_counters.capacity_evicted;
  data_nonces_accepted = s.nonce_counters.accepted;
  data_nonce_replays = s.nonce_counters.replays;
  data_nonces_expired = s.nonce_counters.expired;
  data_nonces_capacity_evicted = s.nonce_counters.capacity_evicted;
  data_nonces_session_discarded = s.nonce_counters.session_discarded;
  current_handshake_replays = size s.handshake_replays;
  peak_handshake_replays = s.replay_counters.peak;
  current_sessions = length s.sessions;
  peak_sessions = s.session_counters.peak;
  current_pending_sessions = length s.pending_sessions;
  peak_pending_sessions = s.pending_counters.peak;
  current_data_nonces = s.nonce_counters.current;
  peak_data_nonces = s.nonce_counters.peak;
}
