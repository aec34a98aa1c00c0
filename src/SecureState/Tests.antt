-- ===== src/SecureState/Tests.antt =====
-- Runs of the session tables on small inputs, and the theorems at inputs that meet their hypotheses.
use aismixer.Prelude.{some, ℕ, ◌+◌, true, List, [], ◌∷◌, ◌≡◌, refl, arith, text_eq, nat_eq, ok, All}
use aismixer.SecureState.{SecureSession, Handle, Limits, SecureState, init, new_state}
use aismixer.SecureState.Expiring.{ExpiringSet, Admission, empty_set}
use aismixer.SecureState.Expiring.Sync.{empty_set-IsSynced}
use aismixer.SecureState.Expiring.Replays.{accept_all, IsRoomy, AllRefused, accept_all-refused}
use aismixer.SecureState.Balance.{session_nonces, pending_nonces}
use aismixer.SecureState.Tables.{total}
use aismixer.Prelude.Dict.{lookup}
use aismixer.SecureState.Promotion.{promote_pending_session-install}
use aismixer.SecureState.Sessions.{install_pending_session, promote_pending_session}
use aismixer.SecureState.Stats.{stats}
use aismixer.SecureState.Calls.{
  Call, install_call, install_pending_call, accept_pending_call, promote_call, accept_call,
  cleanup_call, perform_all, AnyStation, IsConserved, perform_all-IsConserved, init-IsValid,
}

abbrev limits : Limits
limits = record {
  session_ttl = 30;
  max_sessions = 2;
  handshake_replay_ttl = 60;
  handshake_replay_max = 4;
  data_nonce_ttl = 10;
  data_nonce_max_per_session = 1;
  pending_session_ttl = 5;
  max_pending_sessions = 1;
}

abbrev started : SecureState ℕ
started = new_state limits

abbrev pending_handle : Handle
pending_handle = record { address = 1 ∷ []; id = 0 }

-- a handshake, its confirmation, data, two more stations, of which the last takes the first one's room
abbrev calls : List (Call ℕ)
calls =
    install_pending_call (1 ∷ []) (7 ∷ []) 0 1 0
    ∷ accept_pending_call pending_handle (40 ∷ []) 1
    ∷ promote_call pending_handle 1
    ∷ accept_call (record { address = 1 ∷ []; id = 1 }) (41 ∷ []) 2
    ∷ install_call (2 ∷ []) (8 ∷ []) 2 3 3
    ∷ install_call (3 ∷ []) (9 ∷ []) 4 5 4
    ∷ cleanup_call 33
    ∷ []

perform_all-IsConserved_example :
    (t : SecureState ℕ) × (perform_all calls started ≡ (ok tt, t))
    × IsConserved limits (stats t)
    × ((stats t).current_data_nonces
        ≡ total (session_nonces AnyStation) t.sessions
          + total (pending_nonces AnyStation) t.pending_sessions)
perform_all-IsConserved_example = perform_all-IsConserved limits started calls (unfold init in refl)

abbrev replays : ExpiringSet ℕ
replays = empty_set 60 2

abbrev repeats : List (ℕ × ℕ)
repeats = (8, 10) ∷ (7, 20) ∷ (7, 59) ∷ []

accept_all-refused_example :
    (a : Admission) × (answers : List Admission) × (t : ExpiringSet ℕ) × (accept_all
        ((7, 0) ∷ repeats)
        replays
      ≡ (ok (a ∷ answers), t))
    × (a.accepted ≡ true → All IsRoomy answers → AllRefused 7 repeats answers)
accept_all-refused_example =
    accept_all-refused 7 0 repeats replays (empty_set-IsSynced 60 2 (omega arith))
      (omega arith, (omega arith, (omega arith, tt)))

promote_pending_session-install_example :
    (h g : Handle) × (p t : SecureState ℕ) × (w : SecureSession ℕ) × (install_pending_session
        (1 ∷ [])
        (7 ∷ [])
        3
        4
        10
        started
      ≡ (ok h, p))
    × (promote_pending_session h 14 p ≡ (ok (some g), t))
    × (lookup (1 ∷ []) t.sessions ≡ some w)
    × (w.station_id ≡ 7 ∷ [])
    × (w.client_to_server ≡ 3)
    × (w.server_to_client ≡ 4)
promote_pending_session-install_example =
    promote_pending_session-install AnyStation (1 ∷ []) (7 ∷ []) 3 4 10 14 started
      (init-IsValid AnyStation limits started (unfold init in refl)).0 tt (omega arith)
