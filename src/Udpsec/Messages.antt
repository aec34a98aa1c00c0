-- ===== src/Udpsec/Messages.antt =====
-- aismixer_secure.py: the packets and messages of the secure listener, and the keys that it answers a
-- handshake with. An AESGCM cipher is its key.
use aismixer.Prelude.{
  ℕ, ◌+◌, Bool, true, false, ◌&&◌, not, Option, none, some, [], ◌∷◌, ◌++◌, Text, text_eq, ◌==◌,
  codes, ltb, leb, nat_beq, if◌then◌else◌, length, take, drop, Result, ok, value_error,
}
use aismixer.Prelude.Dict.{Dict, lookup}
use aismixer.Udpsec.{Library, ◌>>=◌, ◌>>◌, check}
use aismixer.Udpsec.Bytes.{starts_with, is_empty}
use aismixer.Udpsec.Crypto.{
  domain_context, update_all, build_server_auth_digest, build_session_transcript_hash,
  sign_transcript_digest, derive_ephemeral_shared_secret, derive_session_key_material,
  serialize_ephemeral_public_key,
}
use aismixer.Udpsec.Protocol.{ClientHello, make_server_hello, build_server_hello_packet}

abbrev pub data_prefix : Text
data_prefix = codes "NMEA-D"

abbrev pub nosession_prefix : Text
nosession_prefix = codes "NOSESSION"

abbrev pub data_aad : Text
data_aad = codes "NMEA"

abbrev pub handshake_replay_label : Text
handshake_replay_label = codes "HANDSHAKE-REPLAY"

-- A value of a JSON object: a whole number is one from 0 on, and `other` is everything else, the
-- negative numbers among it.
pub data Value : Type 0 where
  whole : ℕ → Value
  words : Text → Value
  negative other : Value

abbrev pub Message : Type 0
Message = Dict Text Value

pub data Loaded : Type 0 where
  object : Message → Loaded
  not_object : Loaded

-- AES-GCM and JSON
pub record Traffic : Type 0 where
  -- key, nonce, text, associated data; `none` for InvalidTag
  pub aes_encrypt : Text → Text → Text → Text → Text
  pub aes_decrypt : Text → Text → Text → Text → Option Text
  -- `json.loads` of the decoded bytes; `none` where either raises
  pub json_loads : Text → Option Loaded
  -- the pong: sequence, timestamp, source
  pub dump_pong : ℕ → ℕ → Text → Text
  -- `str.encode` with surrogatepass
  pub encode_payload : Text → Text

-- What one round draws: `os.urandom` twice, the ephemeral key, the randomness of the signature, and
-- the wall clock.
pub record Draws (Private : Type 0) : Type 0 where
  pub server_random : Text
  pub message_nonce : Text
  pub ephemeral_private_key : Private
  pub signature_random : ℕ
  pub wall_now : ℕ

unfoldable pub parse_secure_data_packet : Text → Result (Text × Text)
parse_secure_data_packet packet = do
  check (starts_with data_prefix packet) value_error
  check (leb (length data_prefix + 12 + 16) (length packet)) value_error
  ok (take 12 (drop (length data_prefix) packet), drop (length data_prefix + 12) packet)

unfoldable pub build_no_session_hint : Option Text → Text
build_no_session_hint none = nosession_prefix
build_no_session_hint (some []) = nosession_prefix
build_no_session_hint (some (c ∷ station)) = nosession_prefix ++ 124 ∷ c ∷ station

abbrev pub is_words : Text → Option Value → Bool
is_words text (some (words found)) = found == text
is_words text _ = false

-- an `int` that is no `bool`
abbrev pub is_whole_or_negative : Option Value → Bool
is_whole_or_negative (some (whole n)) = true
is_whole_or_negative (some negative) = true
is_whole_or_negative _ = false

abbrev pub is_zero : Option Value → Bool
is_zero (some (whole n)) = nat_beq n 0
is_zero _ = false

unfoldable pub is_session_confirmation_ping : Loaded → Text → Bool
unfolding lookup
is_session_confirmation_ping not_object station_id = false
is_session_confirmation_ping (object m) station_id =
    is_words (codes "ping") (lookup (codes "type") m)
    && (is_zero (lookup (codes "seq") m)
        && (is_whole_or_negative (lookup (codes "timestamp") m)
            && is_words station_id (lookup (codes "source_id") m)))

-- what a message asks for, after its source is checked
pub data Request : Type 0 where
  ping : ℕ → Request
  nmea : Value → Request
  invalid : Request

abbrev pub ping_of : Option Value → Request
ping_of (some (whole n)) = if ltb 0 n then ping n else invalid
ping_of _ = invalid

unfoldable pub request_of : Message → Request
unfolding lookup
request_of m =
    if is_words (codes "ping") (lookup (codes "type") m)
    then ping_of (lookup (codes "seq") m)
    else if is_words (codes "nmea") (lookup (codes "type") m)
    then elim (lookup (codes "payload") m) [ none ↦ invalid | some payload ↦ nmea payload ]
    else invalid

unfoldable pub encrypt_secure_json_message : Traffic → Text → Text → Text → Text
encrypt_secure_json_message traffic key nonce plaintext =
    data_prefix ++ nonce ++ traffic.aes_encrypt key nonce plaintext data_aad

module _ {Private Public : Type 0} (lib : Library Private Public) where
  unfoldable pub build_handshake_replay_key : Text → Text → Result Text
  unfolding update_all
  build_handshake_replay_key digest signature = do
    check (nat_beq (length digest) 32) value_error
    check (not (is_empty signature)) value_error
    framed ← update_all [] (domain_context ∷ handshake_replay_label ∷ digest ∷ signature ∷ [])
    ok (lib.sha256 framed)

  -- `_build_server_handshake`: the response, and the keys to the server and to the client
  unfoldable pub build_server_handshake :
      Private → Draws Private → ClientHello → Public → Result (Text × Text × Text)
  unfolding build_server_auth_digest build_session_transcript_hash sign_transcript_digest
      derive_ephemeral_shared_secret derive_session_key_material serialize_ephemeral_public_key
      make_server_hello build_server_hello_packet
  build_server_handshake server_key draws h client_key = do
    server_public ← serialize_ephemeral_public_key lib (lib.public_key draws.ephemeral_private_key)
    digest ←
        build_server_auth_digest lib h.station_id h.timestamp h.client_random
          h.client_ephemeral_public_key h.client_signature draws.server_random server_public
    signature ← sign_transcript_digest lib server_key digest draws.signature_random
    secret ← derive_ephemeral_shared_secret lib draws.ephemeral_private_key client_key
    transcript_hash ←
        build_session_transcript_hash lib h.station_id h.timestamp h.client_random
          h.client_ephemeral_public_key h.client_signature draws.server_random server_public
          signature
    keys ← derive_session_key_material lib secret transcript_hash
    hello ← make_server_hello lib (record {
      server_random = draws.server_random;
      server_ephemeral_public_key = server_public;
      server_signature = signature;
    })
    ok (build_server_hello_packet lib hello, keys.client_to_server_key, keys.server_to_client_key)
