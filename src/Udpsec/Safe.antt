-- ===== src/Udpsec/Safe.antt =====
-- aismixer_secure.py: what a listener in order is, and calls in a row.
use aismixer.Prelude.{
  ℕ, Bool, true, false, Option, none, some, [], ◌∷◌, ◌≡◌, refl, arith, Text, text_eq, if◌then◌else◌,
  Error, Result, ok, err, Exec, continue, ◌>>=◌, All, All-append,
}
use aismixer.Prelude.Dict.{lookup}
use aismixer.SourceIdentity.{build_udpsec_source_id}
use aismixer.SecureState.{SecureSession, SecureState}
use aismixer.SecureState.Sessions.{get_active_session, get_pending_session}
use aismixer.SecureState.Balance.{
  Keeps, cleanup_expired_sessions-Expires, cleanup_expired_pending_sessions-Keeps,
}
use aismixer.SecureState.Operations.{IsValid}
use aismixer.Udpsec.Protocol.{ClientHello, parse_client_hello_packet}
use aismixer.Udpsec.Crypto.{build_client_auth_digest, verify_transcript_signature}
use aismixer.Udpsec.Server.{
  Output, send, put, received, accepted, Listener, Settings, within, lift, lift_option, output,
}

module _ {Private Public Address Network : Type 0}
    (settings : Settings Private Public Address Network) (Came : Text → Type 0) where
  -- The station has a key among the authorized ones, and a handshake packet that came in names it
  -- and is signed with that key.
  pub record IsAuthorized (station : Text) : Type 0 where
    pub identity : Public
    pub listed : lookup station settings.authorized_keys ≡ some identity
    pub packet : Text
    pub came : Came packet
    pub hello : ClientHello
    pub parsed : parse_client_hello_packet settings.library packet ≡ ok hello
    pub named : hello.station_id ≡ station
    pub digest : Text
    pub digested :
        build_client_auth_digest settings.library hello.station_id hello.timestamp
          hello.client_random hello.client_ephemeral_public_key
        ≡ ok digest
    pub verified :
        verify_transcript_signature settings.library identity hello.client_signature digest
        ≡ ok true

  -- a frame has the source identity of an authorized station
  abbrev pub IsAttributed : Output → Type 0
  IsAttributed (put frame) =
      (station : Text) × IsAuthorized station
      × (build_udpsec_source_id (some station) ≡ some frame.source_id)
  IsAttributed (send packet address) = Unit
  IsAttributed (received packet) = Unit
  IsAttributed (accepted payload) = Unit

  -- Every session and pending session is of an authorized station, the tables are in order, and
  -- every frame is attributed.
  pub record IsSafe (l : Listener) : Type 0 where
    pub valid : IsValid IsAuthorized l.state
    pub attributed : All IsAttributed l.outputs

  pub continue-IsSafe :
      {A B : Type 0} (r : Result A) (f : A → Exec Listener B) (l : Listener)
      → IsSafe l
      → ((a : A) → r ≡ ok a → IsSafe (f a l).1)
      → IsSafe (continue r f l).1
  continue-IsSafe (ok a) f l h k = k a refl
  continue-IsSafe (err e) f l h k = h

  pub bind-IsSafe :
      {A B : Type 0} (m : Exec Listener A) (f : A → Exec Listener B) (l : Listener)
      → IsSafe (m l).1
      → ((a : A) → (m l).0 ≡ ok a → IsSafe (f a (m l).1).1)
      → IsSafe ((m >>= f) l).1
  bind-IsSafe m f l h k = continue-IsSafe (m l).0 f (m l).1 h k

  pub within-IsSafe :
      {A : Type 0} (run : Exec (SecureState Text) A) (l : Listener)
      → IsSafe l
      → Keeps IsAuthorized 0 run l.state
      → IsSafe (within run l).1
  within-IsSafe run l h r = record { valid = rw r.runs r.holds; attributed = h.attributed }

  pub output-IsSafe :
      (o : Output) (l : Listener) → IsSafe l → IsAttributed o → IsSafe (output o l).1
  output-IsSafe o l h a = record {
    valid = h.valid;
    attributed = All-append IsAttributed l.outputs (o ∷ []) h.attributed (a, tt);
  }

  pub if-IsSafe :
      (b : Bool) (m k : Exec Listener (Unit {0})) (l : Listener)
      → IsSafe (m l).1
      → IsSafe (k l).1
      → IsSafe ((if b then m else k) l).1
  if-IsSafe true m k l h i = h
  if-IsSafe false m k l h i = i

  -- a call on the sessions that keeps them in order, and what comes after it
  pub call-IsSafe :
      {A B : Type 0} (run : Exec (SecureState Text) A) (f : A → Exec Listener B) (l : Listener)
      → IsSafe l
      → Keeps IsAuthorized 0 run l.state
      → ((a : A) (m : Listener) → IsSafe m → (run l.state).0 ≡ ok a → IsSafe (f a m).1)
      → IsSafe ((within run >>= f) l).1
  call-IsSafe run f l h r k =
      let w = within-IsSafe run l h r in
      bind-IsSafe (within run) f l w (λ a q. k a (within run l).1 w q)

  pub lift-IsSafe :
      {A B : Type 0} (r : Result A) (f : A → Exec Listener B) (l : Listener)
      → IsSafe l
      → ((a : A) → r ≡ ok a → IsSafe (f a l).1)
      → IsSafe ((lift r >>= f) l).1
  lift-IsSafe r f l h k = bind-IsSafe (lift r) f l h k

  pub option-IsSafe :
      {A B : Type 0} (o : Option A) (e : Error) (f : A → Exec Listener B) (l : Listener)
      → IsSafe l
      → ((a : A) → o ≡ some a → IsSafe (f a l).1)
      → IsSafe ((lift_option o e >>= f) l).1
  option-IsSafe none e f l h k = h
  option-IsSafe (some a) e f l h k = k a refl

  pub get_active_session-Keeps :
      (addr : Text) (now : ℕ) (s : SecureState Text)
      → IsValid IsAuthorized s
      → Keeps IsAuthorized 0 (get_active_session addr now) s
        × ((v : SecureSession Text)
            → (get_active_session addr now s).0 ≡ ok (some v)
            → IsAuthorized v.station_id)
  unfolding get_active_session
  get_active_session-Keeps addr now s v =
      let e = cleanup_expired_sessions-Expires IsAuthorized now s v in
      (
        record {
          result = lookup addr e.after.sessions;
          after = e.after;
          runs = rw e.runs refl;
          holds = e.holds;
          limits = e.limits;
        },
        λ found q.
            (let found_there : lookup addr e.after.sessions ≡ some found =
                ground (arith, e.runs, q) in
              (e.holds.sessions.all addr found found_there).1),
      )

  pub get_pending_session-Keeps :
      (addr : Text) (now : ℕ) (s : SecureState Text)
      → IsValid IsAuthorized s
      → Keeps IsAuthorized 0 (get_pending_session addr now) s
  unfolding get_pending_session
  get_pending_session-Keeps addr now s v =
      let e = cleanup_expired_pending_sessions-Keeps IsAuthorized now s v in
      record {
        result = lookup addr e.after.pending_sessions;
        after = e.after;
        runs = rw e.runs refl;
        holds = e.holds;
        limits = e.limits;
      }
