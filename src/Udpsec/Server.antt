-- ===== src/Udpsec/Server.antt =====
-- aismixer_secure.py: one round of `_secure_server_loop`, from a datagram to the state and the
-- packets and frames that go out. A sender's address is named by a text.
use aismixer.Prelude.{
  ℕ, ◌+◌, Bool, true, false, ◌||◌, Option, none, some, List, [], ◌∷◌, ◌++◌, Text, text_eq, codes,
  ltb, if◌then◌else◌, Error, Result, value_error, type_error, Exec, pure, raise, ◌>>=◌, ◌>>◌,
}
use aismixer.Prelude.Dict.{Dict, lookup}
use aismixer.NetworkPolicy.{IpLibrary, NetworkPolicy, allows}
use aismixer.SourceIdentity.{build_udpsec_source_id}
use aismixer.SecureState.{SecureSession, PendingSession, Handle, SecureState}
use aismixer.SecureState.Sessions.{
  cleanup_expired_sessions, cleanup_expired_pending_sessions, install_pending_session,
  get_active_session, get_pending_session, touch_session, promote_pending_session,
}
use aismixer.SecureState.Nonces.{
  accept_handshake_replay, data_nonce_seen, pending_data_nonce_seen, accept_data_nonce,
  accept_pending_data_nonce,
}
use aismixer.Udpsec.{Library}
use aismixer.Udpsec.Bytes.{starts_with}
use aismixer.Udpsec.Crypto.{
  build_client_auth_digest, verify_transcript_signature, parse_ephemeral_public_key,
}
use aismixer.Udpsec.Protocol.{ClientHello, client_hello_prefix, parse_client_hello_packet}
use aismixer.Udpsec.Messages.{
  Value, words, Loaded, object, not_object, Traffic, Draws, data_prefix, data_aad,
  parse_secure_data_packet, build_no_session_hint, is_words, is_session_confirmation_ping, Request,
  ping, nmea, invalid, request_of, encrypt_secure_json_message, build_handshake_replay_key,
  build_server_handshake,
}

pub record IngressFrame : Type 0 where
  pub source_id : Text
  pub alias_for_s : Text
  pub remote_ip : Text
  pub assembler_key : Text
  pub payload : Text

-- `sendto`, the frames that go on the queue, and the traffic that is counted
pub data Output : Type 0 where
  send : Text → Text → Output
  put : IngressFrame → Output
  received accepted : Text → Output

pub record Listener : Type 0 where
  pub state : SecureState Text
  pub outputs : List Output

pub record Datagram : Type 0 where
  pub packet : Text
  pub address : Text
  pub source_ip : Text
  pub port : Text

pub record Settings (Private Public Address Network : Type 0) : Type 0 where
  pub library : Library Private Public
  pub traffic : Traffic
  pub ip_library : IpLibrary Address Network
  pub policy : NetworkPolicy Network
  pub authorized_keys : Dict Text Public
  pub server_private_key : Private
  pub sec_input_id : Option Text

-- a call on the sessions
abbrev pub within : {A : Type 0} → Exec (SecureState Text) A → Exec Listener A
within run l = let (r, s) = run l.state in (r, record l { state = s })

-- a call that keeps no state
abbrev pub lift : {A : Type 0} → Result A → Exec Listener A
lift r l = (r, l)

abbrev pub lift_option : {A : Type 0} → Option A → Error → Exec Listener A
lift_option none error = raise error
lift_option (some a) error = pure a

abbrev pub output : Output → Exec Listener (Unit {0})
output o l = pure tt (record l { outputs = l.outputs ++ o ∷ [] })

-- `except Exception`: what was done stays
abbrev pub caught : Exec Listener (Unit {0}) → Exec Listener (Unit {0})
caught run l = pure tt (run l).1

abbrev pub handle_of : Text → ℕ → Handle
handle_of address id = record { address = address; id = id }

abbrev pub frame_source : Option Text → Text → Text
frame_source none station_id = elim station_id [ [] ↦ codes "ANONYMOUS" | c ∷ v ↦ c ∷ v ]
frame_source (some []) station_id = elim station_id [ [] ↦ codes "ANONYMOUS" | c ∷ v ↦ c ∷ v ]
frame_source (some (c ∷ v)) station_id = c ∷ v

abbrev pub is_invalid : Request → Bool
is_invalid invalid = true
is_invalid (ping n) = false
is_invalid (nmea v) = false

module _ {Private Public Address Network : Type 0}
    (settings : Settings Private Public Address Network) where
  module _ (draws : Draws Private) (d : Datagram) (now : ℕ) where
    -- the handshake's last part: keys, session and answer
    unfoldable pub answer_hello : ClientHello → Public → Exec Listener (Unit {0})
    unfolding build_server_handshake install_pending_session
    answer_hello hello client_key = do
      built ← lift (
          build_server_handshake settings.library settings.server_private_key draws hello
            client_key)
      within (install_pending_session d.address hello.station_id built.1 built.2 now)
      output (send built.0 d.address)

    -- the part after the signature is verified
    unfoldable pub admit_hello : ClientHello → Text → Exec Listener (Unit {0})
    unfolding parse_ephemeral_public_key build_handshake_replay_key accept_handshake_replay
        answer_hello
    admit_hello hello digest = do
      client_key ←
          lift (parse_ephemeral_public_key settings.library hello.client_ephemeral_public_key)
      replay_key ← lift (build_handshake_replay_key settings.library digest hello.client_signature)
      fresh ← within (accept_handshake_replay replay_key now)
      if fresh then answer_hello hello client_key else pure tt

    -- `abs(wall_now() - timestamp) > 30`
    abbrev pub is_out_of_window : ℕ → ℕ → Bool
    is_out_of_window wall_now timestamp =
        ltb (timestamp + 30) wall_now || ltb (wall_now + 30) timestamp

    -- the part after the lookup of the station's identity key
    unfoldable pub check_known : ClientHello → Option Public → Exec Listener (Unit {0})
    unfolding build_client_auth_digest verify_transcript_signature admit_hello
    check_known hello none = pure tt
    check_known hello (some identity) = do
      digest ← lift (
          build_client_auth_digest settings.library hello.station_id hello.timestamp
            hello.client_random hello.client_ephemeral_public_key)
      verified ←
          lift (verify_transcript_signature settings.library identity hello.client_signature digest)
      if verified then admit_hello hello digest else raise value_error

    unfoldable pub check_hello : ClientHello → Exec Listener (Unit {0})
    unfolding lookup check_known
    check_hello hello =
        if is_out_of_window draws.wall_now hello.timestamp
        then pure tt
        else check_known hello (lookup hello.station_id settings.authorized_keys)

    unfoldable pub handshake : Exec Listener (Unit {0})
    unfolding parse_client_hello_packet check_hello
    handshake = do
      hello ← lift (parse_client_hello_packet settings.library d.packet)
      check_hello hello

    abbrev pub send_pong : Text → ℕ → Text → Exec Listener (Unit {0})
    unfolding encrypt_secure_json_message
    send_pong key sequence station_id = output (
        send
          (encrypt_secure_json_message settings.traffic key draws.message_nonce
            (settings.traffic.dump_pong sequence draws.wall_now station_id))
          d.address)

    -- the answer to a confirmation, once the pending session is promoted
    unfoldable pub greet : PendingSession Text → Option Handle → Exec Listener (Unit {0})
    unfolding touch_session encrypt_secure_json_message
    greet pending none = pure tt
    greet pending (some session) = do
      touched ← within (touch_session session now)
      if touched then send_pong pending.server_to_client 0 pending.station_id else pure tt

    -- the pending session's confirmation, after its message is decrypted
    unfoldable pub confirm : PendingSession Text → Text → Loaded → Exec Listener (Unit {0})
    unfolding is_session_confirmation_ping accept_pending_data_nonce promote_pending_session greet
    confirm pending nonce loaded =
        if is_session_confirmation_ping loaded pending.station_id
        then (do
          fresh ← within (accept_pending_data_nonce (handle_of d.address pending.id) nonce now)
          if fresh
              then (do
                promoted ← within (promote_pending_session (handle_of d.address pending.id) now)
                greet pending promoted)
              else pure tt)
        else pure tt

    -- what is decrypted for the pending session ends the round
    unfoldable pub pending_data : PendingSession Text → Text → Text → Exec Listener Bool
    unfolding confirm
    pending_data pending nonce plaintext = do
      loaded ← lift_option (settings.traffic.json_loads plaintext) value_error
      confirm pending nonce loaded
      pure true

    -- `true` where the message was for the pending session, and the round is over
    unfoldable pub try_pending : Option (PendingSession Text) → Text → Text → Exec Listener Bool
    unfolding pending_data_nonce_seen pending_data
    try_pending none nonce ciphertext = pure false
    try_pending (some pending) nonce ciphertext = do
      seen ← within (pending_data_nonce_seen (handle_of d.address pending.id) nonce now)
      if seen
          then pure false
          else elim (settings.traffic.aes_decrypt pending.client_to_server nonce ciphertext
              data_aad) [
                | none ↦ pure false
                | some plaintext ↦ pending_data pending nonce plaintext
              ]

    -- `frame_from_text_payload`: a payload that is no text makes no frame
    unfoldable pub put_frame : Text → Value → Exec Listener (Unit {0})
    unfolding build_udpsec_source_id
    put_frame station_id (words payload) = do
      source_id ← lift_option (build_udpsec_source_id (some station_id)) value_error
      output (
          put (record {
            source_id = source_id;
            alias_for_s = frame_source settings.sec_input_id station_id;
            remote_ip = d.source_ip;
            assembler_key = d.source_ip ++ 58 ∷ d.port;
            payload = settings.traffic.encode_payload payload;
          }))
      output (accepted (settings.traffic.encode_payload payload))
    put_frame station_id _ = do
      _ ← lift_option (build_udpsec_source_id (some station_id)) value_error
      pure tt

    -- the request of a message whose nonce is accepted
    unfoldable pub serve : SecureSession Text → Request → Exec Listener (Unit {0})
    unfolding encrypt_secure_json_message put_frame
    serve session (ping sequence) = send_pong session.server_to_client sequence session.station_id
    serve session (nmea payload) = put_frame session.station_id payload
    serve session invalid = pure tt

    unfoldable pub accept_request : SecureSession Text → Text → Request → Exec Listener (Unit {0})
    unfolding accept_data_nonce touch_session serve
    accept_request session nonce request = if is_invalid request then pure tt else (do
      fresh ← within (accept_data_nonce (handle_of d.address session.id) nonce now)
      if fresh
          then (do
            within (touch_session (handle_of d.address session.id) now)
            serve session request)
          else pure tt)

    -- `msg.get("source_id")`; what is no object has no `get`
    unfoldable pub read_message : SecureSession Text → Text → Loaded → Exec Listener (Unit {0})
    unfolding lookup request_of accept_request
    read_message session nonce not_object = raise type_error
    read_message session nonce (object m) =
        if is_words session.station_id (lookup (codes "source_id") m)
        then accept_request session nonce (request_of m)
        else pure tt

    unfoldable pub session_data :
        Option (SecureSession Text) → Text → Text → Exec Listener (Unit {0})
    unfolding data_nonce_seen read_message
    session_data none nonce ciphertext = pure tt
    session_data (some session) nonce ciphertext = do
      seen ← within (data_nonce_seen (handle_of d.address session.id) nonce now)
      if seen then pure tt else (do
        plaintext ←
            lift_option
              (settings.traffic.aes_decrypt session.client_to_server nonce ciphertext data_aad)
              value_error
        loaded ← lift_option (settings.traffic.json_loads plaintext) value_error
        read_message session nonce loaded)

    -- a packet for the pending session or else the active one
    unfoldable pub both :
        Option (PendingSession Text) → Option (SecureSession Text) → Exec Listener (Unit {0})
    unfolding parse_secure_data_packet try_pending session_data
    both pending session = do
      parts ← lift (parse_secure_data_packet d.packet)
      over ← try_pending pending parts.0 parts.1
      if over then pure tt else session_data session parts.0 parts.1

    -- the sessions that were found for the address
    unfoldable pub session_packet :
        Option (PendingSession Text) → Option (SecureSession Text) → Exec Listener (Unit {0})
    unfolding build_no_session_hint both
    session_packet none none = output (send (build_no_session_hint none) d.address)
    session_packet pending session = both pending session

    unfoldable pub secure_data : Exec Listener (Unit {0})
    unfolding get_pending_session get_active_session session_packet
    secure_data = do
      pending ← within (get_pending_session d.address now)
      session ← within (get_active_session d.address now)
      session_packet pending session

    -- the handler that the packet's prefix names
    unfoldable pub dispatch : Exec Listener (Unit {0})
    unfolding handshake secure_data
    dispatch =
        if starts_with client_hello_prefix d.packet
        then caught handshake
        else if starts_with data_prefix d.packet
        then caught secure_data
        else pure tt

    -- one round of the loop; `now` is the local clock
    unfoldable pub receive : Exec Listener (Unit {0})
    unfolding allows cleanup_expired_sessions cleanup_expired_pending_sessions dispatch
    receive = do
      output (received d.packet)
      if allows settings.ip_library settings.policy d.source_ip
          then (do
            within (cleanup_expired_sessions now)
            within (cleanup_expired_pending_sessions now)
            dispatch)
          else pure tt

  -- round after round
  unfoldable pub serve_all : List (Draws Private × Datagram × ℕ) → Exec Listener (Unit {0})
  unfolding receive
  serve_all [] = pure tt
  serve_all ((draws, d, now) ∷ rest) = do receive draws d now; serve_all rest
