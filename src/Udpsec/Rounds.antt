-- ===== src/Udpsec/Rounds.antt =====
-- aismixer_secure.py: rounds of `_secure_server_loop`, one after the other.
use aismixer.Prelude.{
  ℕ, true, some, List, [], ◌∷◌, ◌++◌, ◌≡◌, refl, ◌∙◌, ap, arith, Text, text_eq, ok, Exec, continue,
  member, ==-self, All, Bool-cases, inl, inr,
}
use aismixer.NetworkPolicy.{allows}
use aismixer.SecureState.{Limits, SecureState, init}
use aismixer.SecureState.Balance.{
  cleanup_expired_sessions-Expires, cleanup_expired_pending_sessions-Keeps,
}
use aismixer.SecureState.Calls.{init-IsValid}
use aismixer.Udpsec.Bytes.{starts_with}
use aismixer.Udpsec.Protocol.{client_hello_prefix}
use aismixer.Udpsec.Messages.{Draws, data_prefix}
use aismixer.Udpsec.Server.{
  received, Listener, Datagram, Settings, output, handshake, secure_data, dispatch, receive,
  serve_all,
}
use aismixer.Udpsec.Safe.{IsAuthorized, IsSafe, output-IsSafe}
use aismixer.Udpsec.Admission.{handshake-IsSafe, secure_data-IsSafe}

-- the round's packet is one that came in
abbrev pub HasCome : {Private : Type 0} → (Text → Type 0) → Draws Private × Datagram × ℕ → Type 0
HasCome Came round = Came round.1.packet

module _ {Private Public Address Network : Type 0}
    (settings : Settings Private Public Address Network) (Came : Text → Type 0) where
  -- a run that returns and leaves the listener in order
  record Served (run : Exec Listener (Unit {0})) (l : Listener) : Type 0 where
    after : Listener
    runs : run l ≡ (ok tt, after)
    safe : IsSafe settings Came after

  dispatch-Served :
      (draws : Draws Private) (d : Datagram) (now : ℕ) (l : Listener)
      → Came d.packet
      → IsSafe settings Came l
      → Served (dispatch settings draws d now) l
  unfolding dispatch
  dispatch-Served draws d now l came h =
      elim (Bool-cases (starts_with client_hello_prefix d.packet)) [
        | inl hello ↦ record {
          after = (handshake settings draws d now l).1;
          runs = rw hello refl;
          safe = handshake-IsSafe settings Came draws d now came l h;
        }
        | inr other_packet ↦ elim (Bool-cases (starts_with data_prefix d.packet)) [
          | inl message ↦ record {
            after = (secure_data settings draws d now l).1;
            runs = rw (other_packet, message) refl;
            safe = secure_data-IsSafe settings Came draws d now came l h;
          }
          | inr unknown ↦ record { after = l; runs = rw (other_packet, unknown) refl; safe = h }
        ]
      ]

  receive-Served :
      (draws : Draws Private) (d : Datagram) (now : ℕ) (l : Listener)
      → Came d.packet
      → IsSafe settings Came l
      → Served (receive settings draws d now) l
  unfolding receive
  receive-Served draws d now l came h =
      let i = output-IsSafe settings Came (received d.packet) l h tt in
      let e = cleanup_expired_sessions-Expires (IsAuthorized settings Came) now l.state h.valid in
      let p =
        cleanup_expired_pending_sessions-Keeps (IsAuthorized settings Came) now e.after e.holds in
      let m : Listener = record {
        state = p.after;
        outputs = l.outputs ++ received d.packet ∷ [];
      } in
      let s =
        dispatch-Served draws d now m came
          (record { valid = p.holds; attributed = i.attributed }) in
      elim (Bool-cases (allows settings.ip_library settings.policy d.source_ip)) [
        | inl allowed ↦ record {
          after = s.after;
          runs = rw (allowed, e.runs, p.runs) s.runs;
          safe = s.safe;
        }
        | inr refused ↦ record {
          after = (output (received d.packet) l).1;
          runs = rw refused refl;
          safe = i;
        }
      ]

  serve_all-Served :
      (rounds : List (Draws Private × Datagram × ℕ)) (l : Listener)
      → All (HasCome Came) rounds
      → IsSafe settings Came l
      → Served (serve_all settings rounds) l
  unfolding serve_all
  serve_all-Served [] l came h = record { after = l; runs = refl; safe = h }
  serve_all-Served ((draws, d, now) ∷ rest) l came h =
      let r = receive-Served draws d now l came.0 h in
      let q = serve_all-Served rest r.after came.1 r.safe in
      record {
        after = q.after;
        runs = ap (λ x. continue x.0 (λ u. serve_all settings rest) x.1) r.runs ∙ q.runs;
        safe = q.safe;
      }

abbrev pub packets : {Private : Type 0} → List (Draws Private × Datagram × ℕ) → List Text
packets [] = []
packets ((draws, d, now) ∷ rest) = d.packet ∷ packets rest

-- the packet is one of the rounds'
abbrev pub IsAmong : {Private : Type 0} → List (Draws Private × Datagram × ℕ) → Text → Type 0
IsAmong rounds packet = member packet (packets rounds) ≡ true

module _ {Private : Type 0} where
  later_come :
      (round : Draws Private × Datagram × ℕ)
      (rounds some_rounds : List (Draws Private × Datagram × ℕ))
      → All (HasCome (IsAmong rounds)) some_rounds
      → All (HasCome (IsAmong (round ∷ rounds))) some_rounds
  later_come round rounds [] h = tt
  later_come round rounds (x ∷ xs) h = (ground (arith, h.0), later_come round rounds xs h.1)

  all_come : (rounds : List (Draws Private × Datagram × ℕ)) → All (HasCome (IsAmong rounds)) rounds
  all_come [] = tt
  all_come (round ∷ rounds) =
      (ground (arith, ==-self round.1.packet), later_come round rounds rounds (all_come rounds))

-- Whatever datagrams come in, in whatever order, at whatever times and whatever the codecs and ciphers
-- answer, the loop never ends by an exception; every session and pending session is then of a station
-- that has an authorized key and that one of the datagrams names in a handshake packet signed with
-- that key; every frame on the queue has the source identity of such a station; and the tables are in
-- order and within their limits.
pub serve_all-IsSafe :
    {Private Public Address Network : Type 0} (settings : Settings Private Public Address Network)
    (limits : Limits) (s : SecureState Text) (rounds : List (Draws Private × Datagram × ℕ))
    → init limits ≡ some s
    → (l : Listener) × (serve_all settings rounds (record { state = s; outputs = [] }) ≡ (ok tt, l))
      × IsSafe settings (IsAmong rounds) l
serve_all-IsSafe settings limits s rounds h =
    let v = init-IsValid (IsAuthorized settings (IsAmong rounds)) limits s h in
    let r =
      serve_all-Served settings (IsAmong rounds) rounds _ (all_come rounds)
        (record { valid = v.0; attributed = tt }) in
    (r.after, r.runs, r.safe)
