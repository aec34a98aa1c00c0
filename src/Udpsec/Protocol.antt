-- ===== src/Udpsec/Protocol.antt =====
-- core/udpsec_protocol.py: the packets of the handshake, built and parsed.
use aismixer.Prelude.{
  ℕ, Bool, false, ◌&&◌, ◌||◌, not, none, some, List, [], ◌∷◌, Text, text_eq, nat_eq, ◌==◌, codes,
  ltb, leb, nat_beq, member, if◌then◌else◌, length, Result, ok, err, value_error,
}
use aismixer.Udpsec.{Library, ◌>>=◌, ◌>>◌, check}
use aismixer.Udpsec.Bytes.{split, join, is_less, is_empty, all_digits, decimal, int_from}
use aismixer.Udpsec.Crypto.{max_timestamp, is_compressed}

abbrev pub client_hello_prefix : Text
client_hello_prefix = codes "NMEA-H"

abbrev pub server_hello_prefix : Text
server_hello_prefix = codes "OK"

pub record ClientHello : Type 0 where
  pub station_id : Text
  pub timestamp : ℕ
  pub client_random : Text
  pub client_ephemeral_public_key : Text
  pub client_signature : Text

pub record ServerHello : Type 0 where
  pub server_random : Text
  pub server_ephemeral_public_key : Text
  pub server_signature : Text

abbrev pub is_random : Text → Bool
is_random value = nat_beq (length value) 32

-- a lead digit from 1 to 9, and digits after it
abbrev pub is_canonical_decimal : Text → Bool
is_canonical_decimal [] = false
is_canonical_decimal (c ∷ cs) = (leb 49 c && leb c 57) && all_digits cs

abbrev pub max_timestamp_ascii : Text
max_timestamp_ascii = decimal max_timestamp

-- `_parse_timestamp` of what is not the text 0
unfoldable pub parse_digits : Text → Result ℕ
unfolding is_less decimal int_from
parse_digits encoded = do
  check (is_canonical_decimal encoded) value_error
  check
      (not (
        ltb (length max_timestamp_ascii) (length encoded)
        || nat_beq (length encoded) (length max_timestamp_ascii)
          && is_less max_timestamp_ascii encoded))
      value_error
  check (decimal (int_from 0 encoded) == encoded) value_error
  ok (int_from 0 encoded)

unfoldable pub parse_timestamp : Text → Result ℕ
unfolding parse_digits
parse_timestamp encoded = if encoded == codes "0" then ok 0 else parse_digits encoded

module _ {Private Public : Type 0} (lib : Library Private Public) where
  -- `_station_id_bytes`
  unfoldable pub packet_station_id : Text → Result Text
  packet_station_id station_id = do
    check (not (is_empty station_id)) value_error
    check (not (member 124 station_id)) value_error
    elim (lib.encode_utf8 station_id) [ none ↦ err value_error | some encoded ↦ ok encoded ]

  -- the constructors, with `__post_init__`
  unfoldable pub make_client_hello : ClientHello → Result ClientHello
  unfolding packet_station_id
  make_client_hello h = do
    _ ← packet_station_id h.station_id
    check (leb h.timestamp max_timestamp) value_error
    check (is_random h.client_random) value_error
    check (is_compressed h.client_ephemeral_public_key) value_error
    check (not (is_empty h.client_signature)) value_error
    ok h

  unfoldable pub make_server_hello : ServerHello → Result ServerHello
  make_server_hello h = do
    check (is_random h.server_random) value_error
    check (is_compressed h.server_ephemeral_public_key) value_error
    check (not (is_empty h.server_signature)) value_error
    ok h

  unfoldable pub decode_base64 : Text → Result Text
  decode_base64 encoded = do
    check (not (is_empty encoded)) value_error
    elim (lib.b64decode encoded) [
      | none ↦ err value_error
      | some decoded ↦ do check (lib.b64encode decoded == encoded) value_error; ok decoded
    ]

  unfoldable pub build_client_hello_packet : ClientHello → Result Text
  unfolding packet_station_id decimal join
  build_client_hello_packet h = do
    station ← packet_station_id h.station_id
    ok (
        join (
          client_hello_prefix
          ∷ station
          ∷ decimal h.timestamp
          ∷ lib.b64encode h.client_random
          ∷ lib.b64encode h.client_ephemeral_public_key
          ∷ lib.b64encode h.client_signature
          ∷ []))

  -- the fields after the prefix
  unfoldable pub parse_client_fields : List Text → Result ClientHello
  unfolding parse_timestamp decode_base64 make_client_hello
  parse_client_fields (prefix ∷ station ∷ time ∷ random ∷ key ∷ signature ∷ []) = do
    check (prefix == client_hello_prefix) value_error
    elim (lib.decode_utf8 station) [
      | none ↦ err value_error
      | some station_id ↦ do
        timestamp ← parse_timestamp time
        client_random ← decode_base64 random
        client_key ← decode_base64 key
        client_signature ← decode_base64 signature
        make_client_hello (record {
          station_id = station_id;
          timestamp = timestamp;
          client_random = client_random;
          client_ephemeral_public_key = client_key;
          client_signature = client_signature;
        })
    ]
  parse_client_fields _ = err value_error

  unfoldable pub parse_client_hello_packet : Text → Result ClientHello
  unfolding split parse_client_fields
  parse_client_hello_packet packet = parse_client_fields (split packet)

  unfoldable pub build_server_hello_packet : ServerHello → Text
  unfolding join
  build_server_hello_packet h = join (
      server_hello_prefix
      ∷ lib.b64encode h.server_random
      ∷ lib.b64encode h.server_ephemeral_public_key
      ∷ lib.b64encode h.server_signature
      ∷ [])

  unfoldable pub parse_server_fields : List Text → Result ServerHello
  unfolding decode_base64 make_server_hello
  parse_server_fields (prefix ∷ random ∷ key ∷ signature ∷ []) = do
    check (prefix == server_hello_prefix) value_error
    server_random ← decode_base64 random
    server_key ← decode_base64 key
    server_signature ← decode_base64 signature
    make_server_hello (record {
      server_random = server_random;
      server_ephemeral_public_key = server_key;
      server_signature = server_signature;
    })
  parse_server_fields _ = err value_error

  unfoldable pub parse_server_hello_packet : Text → Result ServerHello
  unfolding split parse_server_fields
  parse_server_hello_packet packet = parse_server_fields (split packet)
