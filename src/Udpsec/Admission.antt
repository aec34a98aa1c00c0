-- ===== src/Udpsec/Admission.antt =====
-- aismixer_secure.py: the handler of a packet, branch by branch.
use aismixer.Prelude.{
  ℕ, Bool, true, false, Option, none, some, ◌≡◌, refl, ◌∙◌, ap, Text, text_eq, codes, if◌then◌else◌,
  ok, value_error, pure, raise, ◌>>=◌, Bool-cases, Option-cases, inl, inr,
}
use aismixer.Prelude.Dict.{lookup}
use aismixer.SourceIdentity.{build_udpsec_source_id}
use aismixer.SecureState.{SecureSession, PendingSession, Handle}
use aismixer.SecureState.Sessions.{
  install_pending_session, get_active_session, get_pending_session, touch_session,
  promote_pending_session,
}
use aismixer.SecureState.Nonces.{
  accept_handshake_replay, data_nonce_seen, pending_data_nonce_seen, accept_data_nonce,
  accept_pending_data_nonce,
}
use aismixer.SecureState.Operations.{
  touch_session-Keeps, install_pending_session-Keeps, promote_pending_session-Keeps,
}
use aismixer.SecureState.Accepting.{
  data_nonce_seen-Keeps, pending_data_nonce_seen-Keeps, accept_data_nonce-Keeps,
  accept_pending_data_nonce-Keeps, accept_handshake_replay-Keeps,
}
use aismixer.Udpsec.Protocol.{ClientHello, parse_client_hello_packet}
use aismixer.Udpsec.Crypto.{
  build_client_auth_digest, verify_transcript_signature, parse_ephemeral_public_key,
}
use aismixer.Udpsec.Messages.{
  Value, words, whole, negative, other, Loaded, object, not_object, Draws, data_aad,
  parse_secure_data_packet, Request, ping, nmea, invalid, request_of, is_words,
  is_session_confirmation_ping, build_server_handshake, build_handshake_replay_key,
}
use aismixer.Udpsec.Server.{
  send, Listener, Datagram, Settings, lift_option, handle_of, answer_hello, admit_hello,
  check_hello, check_known, handshake, greet, is_invalid, confirm, pending_data, try_pending, both,
  put_frame, serve, accept_request, read_message, session_data, session_packet, secure_data,
}
use aismixer.Udpsec.Safe.{
  IsAuthorized, IsSafe, bind-IsSafe, output-IsSafe, if-IsSafe, call-IsSafe, lift-IsSafe,
  option-IsSafe, get_active_session-Keeps, get_pending_session-Keeps,
}

module _ {Private Public Address Network : Type 0}
    (settings : Settings Private Public Address Network) (Came : Text → Type 0) where
  module _ (draws : Draws Private) (d : Datagram) (now : ℕ) (came : Came d.packet) where
    answer_hello-IsSafe :
        (hello : ClientHello) (key : Public) (l : Listener)
        → IsSafe settings Came l
        → IsAuthorized settings Came hello.station_id
        → IsSafe settings Came (answer_hello settings draws d now hello key l).1
    unfolding answer_hello
    answer_hello-IsSafe hello key l h known =
        lift-IsSafe settings Came {B = Unit}
          (build_server_handshake settings.library settings.server_private_key draws hello key) _ l
          h
          (λ built q.
            call-IsSafe settings Came {B = Unit}
              (install_pending_session d.address hello.station_id built.1 built.2 now) _ l h
              (install_pending_session-Keeps (IsAuthorized settings Came) d.address hello.station_id
                built.1 built.2 now l.state h.valid known)
              (λ a m i q'. output-IsSafe settings Came (send built.0 d.address) m i tt))

    admit_hello-IsSafe :
        (hello : ClientHello) (digest : Text) (l : Listener)
        → IsSafe settings Came l
        → IsAuthorized settings Came hello.station_id
        → IsSafe settings Came (admit_hello settings draws d now hello digest l).1
    unfolding admit_hello
    admit_hello-IsSafe hello digest l h known =
        lift-IsSafe settings Came {B = Unit}
          (parse_ephemeral_public_key settings.library hello.client_ephemeral_public_key) _ l h
          (λ client_key q.
            lift-IsSafe settings Came {B = Unit}
              (build_handshake_replay_key settings.library digest hello.client_signature) _ l h
              (λ replay_key q'.
                call-IsSafe settings Came {B = Unit} (accept_handshake_replay replay_key now) _ l h
                  (accept_handshake_replay-Keeps (IsAuthorized settings Came) replay_key now l.state
                    h.valid)
                  (λ fresh m i q''.
                    if-IsSafe settings Came fresh
                      (answer_hello settings draws d now hello client_key) (pure tt) m
                      (answer_hello-IsSafe hello client_key m i known) i)))

    decided-IsSafe :
        (hello : ClientHello) (digest : Text) (verified : Bool) (l : Listener)
        → IsSafe settings Came l
        → (verified ≡ true → IsAuthorized settings Came hello.station_id)
        → IsSafe settings Came
            ((if verified then admit_hello settings draws d now hello digest else raise value_error)
              l).1
    decided-IsSafe hello digest true l h known = admit_hello-IsSafe hello digest l h (known refl)
    decided-IsSafe hello digest false l h known = h

    check_known-IsSafe :
        (hello : ClientHello) (l : Listener) (found : Option Public)
        → IsSafe settings Came l
        → parse_client_hello_packet settings.library d.packet ≡ ok hello
        → lookup hello.station_id settings.authorized_keys ≡ found
        → IsSafe settings Came (check_known settings draws d now hello found l).1
    unfolding check_known
    check_known-IsSafe hello l none h p q = h
    check_known-IsSafe hello l (some identity) h p q =
        lift-IsSafe settings Came {B = Unit}
          (build_client_auth_digest settings.library hello.station_id hello.timestamp
            hello.client_random hello.client_ephemeral_public_key)
          _ l h
          (λ digest q'.
            lift-IsSafe settings Came {B = Unit}
              (verify_transcript_signature settings.library identity hello.client_signature digest)
              _ l h
              (λ verified q''. decided-IsSafe hello digest verified l h (λ good. record {
                identity = identity;
                listed = q;
                packet = d.packet;
                came = came;
                hello = hello;
                parsed = p;
                named = refl;
                digest = digest;
                digested = q';
                verified = q'' ∙ ap ok good;
              })))

    pub handshake-IsSafe :
        (l : Listener)
        → IsSafe settings Came l
        → IsSafe settings Came (handshake settings draws d now l).1
    unfolding handshake check_hello
    handshake-IsSafe l h =
        lift-IsSafe settings Came {B = Unit} (parse_client_hello_packet settings.library d.packet) _
          l h
          (λ hello q.
            if-IsSafe settings Came _ (pure tt)
              (check_known settings draws d now hello
                (lookup hello.station_id settings.authorized_keys))
              l h
              (check_known-IsSafe hello l (lookup hello.station_id settings.authorized_keys) h q
                refl))

    greet-IsSafe :
        (pending : PendingSession Text) (promoted : Option Handle) (l : Listener)
        → IsSafe settings Came l
        → IsSafe settings Came (greet settings draws d now pending promoted l).1
    unfolding greet
    greet-IsSafe pending none l h = h
    greet-IsSafe pending (some session) l h =
        call-IsSafe settings Came {B = Unit} (touch_session session now) _ l h
          (touch_session-Keeps (IsAuthorized settings Came) session now l.state h.valid)
          (λ touched m i q.
            if-IsSafe settings Came touched _ (pure tt) m (output-IsSafe settings Came _ m i tt) i)

    confirm-IsSafe :
        (pending : PendingSession Text) (nonce : Text) (loaded : Loaded) (l : Listener)
        → IsSafe settings Came l
        → IsSafe settings Came (confirm settings draws d now pending nonce loaded l).1
    unfolding confirm
    confirm-IsSafe pending nonce loaded l h =
        let handle = handle_of d.address pending.id in
        if-IsSafe settings Came (is_session_confirmation_ping loaded pending.station_id) _ (pure tt)
          l
          (call-IsSafe settings Came {B = Unit} (accept_pending_data_nonce handle nonce now) _ l h
            (accept_pending_data_nonce-Keeps (IsAuthorized settings Came) handle nonce now l.state
              h.valid)
            (λ fresh m i q.
              if-IsSafe settings Came fresh _ (pure tt) m
                (call-IsSafe settings Came {B = Unit} (promote_pending_session handle now) _ m i
                  (promote_pending_session-Keeps (IsAuthorized settings Came) handle now m.state
                    i.valid)
                  (λ promoted m' i' q'. greet-IsSafe pending promoted m' i'))
                i))
          h

    unread-IsSafe :
        (station_id : Text) (l : Listener)
        → IsSafe settings Came l
        → IsSafe settings Came
            ((lift_option (build_udpsec_source_id (some station_id)) value_error >>= λ _. pure tt)
              l).1
    unread-IsSafe station_id l h =
        option-IsSafe settings Came {B = Unit} (build_udpsec_source_id (some station_id))
          value_error _ l h (λ _ q. h)

    put_frame-IsSafe :
        (station_id : Text) (payload : Value) (l : Listener)
        → IsSafe settings Came l
        → IsAuthorized settings Came station_id
        → IsSafe settings Came (put_frame settings draws d now station_id payload l).1
    unfolding put_frame
    put_frame-IsSafe station_id (words payload) l h known =
        option-IsSafe settings Came {B = Unit} (build_udpsec_source_id (some station_id))
          value_error _ l h
          (λ source_id q.
            output-IsSafe settings Came _ _
              (output-IsSafe settings Came _ l h (station_id, known, q)) tt)
    put_frame-IsSafe station_id (whole n) l h known = unread-IsSafe station_id l h
    put_frame-IsSafe station_id negative l h known = unread-IsSafe station_id l h
    put_frame-IsSafe station_id other l h known = unread-IsSafe station_id l h

    serve-IsSafe :
        (session : SecureSession Text) (request : Request) (l : Listener)
        → IsSafe settings Came l
        → IsAuthorized settings Came session.station_id
        → IsSafe settings Came (serve settings draws d now session request l).1
    unfolding serve
    serve-IsSafe session (ping n) l h known = output-IsSafe settings Came _ l h tt
    serve-IsSafe session (nmea payload) l h known =
        put_frame-IsSafe session.station_id payload l h known
    serve-IsSafe session invalid l h known = h

    accept_request-IsSafe :
        (session : SecureSession Text) (nonce : Text) (request : Request) (l : Listener)
        → IsSafe settings Came l
        → IsAuthorized settings Came session.station_id
        → IsSafe settings Came (accept_request settings draws d now session nonce request l).1
    unfolding accept_request
    accept_request-IsSafe session nonce request l h known =
        let handle = handle_of d.address session.id in
        if-IsSafe settings Came (is_invalid request) (pure tt) _ l h (
          call-IsSafe settings Came {B = Unit} (accept_data_nonce handle nonce now) _ l h
            (accept_data_nonce-Keeps (IsAuthorized settings Came) handle nonce now l.state h.valid)
            (λ fresh m i q.
              if-IsSafe settings Came fresh _ (pure tt) m
                (call-IsSafe settings Came {B = Unit} (touch_session handle now) _ m i
                  (touch_session-Keeps (IsAuthorized settings Came) handle now m.state i.valid)
                  (λ touched m' i' q'. serve-IsSafe session request m' i' known))
                i))

    read_message-IsSafe :
        (session : SecureSession Text) (nonce : Text) (loaded : Loaded) (l : Listener)
        → IsSafe settings Came l
        → IsAuthorized settings Came session.station_id
        → IsSafe settings Came (read_message settings draws d now session nonce loaded l).1
    unfolding read_message
    read_message-IsSafe session nonce not_object l h known = h
    read_message-IsSafe session nonce (object m) l h known =
        if-IsSafe settings Came (is_words session.station_id (lookup (codes "source_id") m))
          (accept_request settings draws d now session nonce (request_of m)) (pure tt) l
          (accept_request-IsSafe session nonce (request_of m) l h known) h

    session_data-IsSafe :
        (session : Option (SecureSession Text)) (nonce ciphertext : Text) (l : Listener)
        → IsSafe settings Came l
        → ((v : SecureSession Text) → session ≡ some v → IsAuthorized settings Came v.station_id)
        → IsSafe settings Came (session_data settings draws d now session nonce ciphertext l).1
    unfolding session_data
    session_data-IsSafe none nonce ciphertext l h known = h
    session_data-IsSafe (some session) nonce ciphertext l h known =
        let handle = handle_of d.address session.id in
        call-IsSafe settings Came {B = Unit} (data_nonce_seen handle nonce now) _ l h
          (data_nonce_seen-Keeps (IsAuthorized settings Came) handle nonce now l.state h.valid)
          (λ seen m i q. if-IsSafe settings Came seen (pure tt) _ m i (
            option-IsSafe settings Came {B = Unit}
              (settings.traffic.aes_decrypt session.client_to_server nonce ciphertext data_aad)
              value_error _ m i
              (λ plaintext q'.
                option-IsSafe settings Came {B = Unit} (settings.traffic.json_loads plaintext)
                  value_error _ m i
                  (λ loaded q''.
                    read_message-IsSafe session nonce loaded m i (known session refl)))))

    pending_data-IsSafe :
        (pending : PendingSession Text) (nonce : Text) (plaintext : Text) (l : Listener)
        → IsSafe settings Came l
        → IsSafe settings Came (pending_data settings draws d now pending nonce plaintext l).1
    unfolding pending_data
    pending_data-IsSafe pending nonce plaintext l h =
        option-IsSafe settings Came {B = Bool} (settings.traffic.json_loads plaintext) value_error _
          l h
          (λ loaded q.
            bind-IsSafe settings Came {B = Bool} (confirm settings draws d now pending nonce loaded)
              _ l (confirm-IsSafe pending nonce loaded l h)
              (λ u q'. confirm-IsSafe pending nonce loaded l h))

    try_pending-IsSafe :
        (pending : Option (PendingSession Text)) (nonce ciphertext : Text) (l : Listener)
        → IsSafe settings Came l
        → IsSafe settings Came (try_pending settings draws d now pending nonce ciphertext l).1
    unfolding try_pending
    try_pending-IsSafe none nonce ciphertext l h = h
    try_pending-IsSafe (some pending) nonce ciphertext l h =
        let handle = handle_of d.address pending.id in
        call-IsSafe settings Came {B = Bool} (pending_data_nonce_seen handle nonce now) _ l h
          (pending_data_nonce_seen-Keeps (IsAuthorized settings Came) handle nonce now l.state
            h.valid)
          (λ seen m i q. elim (Bool-cases seen) [
            | inl repeated ↦ rw repeated i
            | inr new ↦
                elim (Option-cases (
                  settings.traffic.aes_decrypt pending.client_to_server nonce ciphertext
                    data_aad)) [
                      | inl wrong ↦ rw (new, wrong) i
                      | inr (plaintext, right) ↦
                          rw (new, right) (pending_data-IsSafe pending nonce plaintext m i)
                    ]
          ])

    both-IsSafe :
        (pending : Option (PendingSession Text)) (session : Option (SecureSession Text))
        (l : Listener)
        → IsSafe settings Came l
        → ((v : SecureSession Text) → session ≡ some v → IsAuthorized settings Came v.station_id)
        → IsSafe settings Came (both settings draws d now pending session l).1
    unfolding both
    both-IsSafe pending session l h known =
        lift-IsSafe settings Came {B = Unit} (parse_secure_data_packet d.packet) _ l h (λ parts q.
          bind-IsSafe settings Came {B = Unit}
            (try_pending settings draws d now pending parts.0 parts.1) _ l
            (try_pending-IsSafe pending parts.0 parts.1 l h)
            (λ over q'.
              if-IsSafe settings Came over (pure tt)
                (session_data settings draws d now session parts.0 parts.1) _
                (try_pending-IsSafe pending parts.0 parts.1 l h)
                (session_data-IsSafe session parts.0 parts.1 _
                  (try_pending-IsSafe pending parts.0 parts.1 l h) known)))

    session_packet-IsSafe :
        (pending : Option (PendingSession Text)) (session : Option (SecureSession Text))
        (l : Listener)
        → IsSafe settings Came l
        → ((v : SecureSession Text) → session ≡ some v → IsAuthorized settings Came v.station_id)
        → IsSafe settings Came (session_packet settings draws d now pending session l).1
    unfolding session_packet
    session_packet-IsSafe none none l h known = output-IsSafe settings Came _ l h tt
    session_packet-IsSafe (some p) none l h known = both-IsSafe (some p) none l h known
    session_packet-IsSafe none (some v) l h known = both-IsSafe none (some v) l h known
    session_packet-IsSafe (some p) (some v) l h known = both-IsSafe (some p) (some v) l h known

    pub secure_data-IsSafe :
        (l : Listener)
        → IsSafe settings Came l
        → IsSafe settings Came (secure_data settings draws d now l).1
    unfolding secure_data
    secure_data-IsSafe l h =
        call-IsSafe settings Came {B = Unit} (get_pending_session d.address now) _ l h
          (get_pending_session-Keeps settings Came d.address now l.state h.valid)
          (λ pending m i q.
            let (keeps, known) =
              get_active_session-Keeps settings Came d.address now m.state i.valid in
            call-IsSafe settings Came {B = Unit} (get_active_session d.address now) _ m i keeps
              (λ session m' i' q'.
                session_packet-IsSafe pending session m' i'
                  (λ v found. known v (q' ∙ ap ok found))))
