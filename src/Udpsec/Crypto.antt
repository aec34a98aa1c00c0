-- ===== src/Udpsec/Crypto.antt =====
-- core/udpsec_crypto.py: transcripts, signatures and session keys. A value of another type than
-- the annotated one, which the code refuses, cannot be written here.
use aismixer.Prelude.{
  ℕ, ◌-◌, Bool, false, ◌&&◌, ◌||◌, not, none, some, List, [], ◌∷◌, ◌++◌, Text, text_eq, ◌==◌, codes,
  ltb, leb, nat_beq, if◌then◌else◌, length, Result, ok, err, value_error, runtime_error,
}
use aismixer.Udpsec.{Library, ◌>>=◌, ◌>>◌, check}
use aismixer.Udpsec.Bytes.{to_bytes, concat, is_empty}

abbrev pub domain_context : Text
domain_context = codes "AISMIXER-UDPSEC-ECDHE"

abbrev pub client_auth_label : Text
client_auth_label = codes "CLIENT-AUTH"

abbrev pub server_auth_label : Text
server_auth_label = codes "SERVER-AUTH"

abbrev pub session_transcript_label : Text
session_transcript_label = codes "SESSION-TRANSCRIPT"

abbrev pub session_key_schedule_label : Text
session_key_schedule_label = codes "SESSION-KEY-SCHEDULE"

abbrev pub client_to_server_label : Text
client_to_server_label = codes "CLIENT-TO-SERVER"

abbrev pub server_to_client_label : Text
server_to_client_label = codes "SERVER-TO-CLIENT"

abbrev pub aes_256_gcm_key_label : Text
aes_256_gcm_key_label = codes "AES-256-GCM-KEY"

abbrev pub max_framed_field_length : ℕ
max_framed_field_length = 4294967295

abbrev pub max_timestamp : ℕ
max_timestamp = 18446744073709551615

abbrev pub p256_order : ℕ
p256_order = 115792089210356248762697446949407573529996955224135760342422259061068512044369

abbrev pub p256_half_order : ℕ
p256_half_order = 57896044605178124381348723474703786764998477612067880171211129530534256022184

pub record SessionKeyMaterial : Type 0 where
  pub client_to_server_key : Text
  pub server_to_client_key : Text

-- a compressed point begins with 2 or 3
abbrev pub is_compressed : Text → Bool
is_compressed [] = false
is_compressed (c ∷ cs) = nat_beq (length (c ∷ cs)) 33 && (nat_beq c 2 || nat_beq c 3)

unfoldable pub timestamp_bytes : ℕ → Result Text
unfolding to_bytes
timestamp_bytes timestamp =
    if leb timestamp max_timestamp then ok (to_bytes 8 timestamp) else err value_error

abbrev pub required_bytes : Text → Result Text
required_bytes value = if is_empty value then err value_error else ok value

abbrev pub is_valid_scalar : ℕ → Bool
is_valid_scalar value = leb 1 value && ltb value p256_order

-- `_update_framed`; the digest is what it was updated with
unfoldable pub update_framed : Text → Text → Result Text
unfolding to_bytes
update_framed digest field =
    if leb (length field) max_framed_field_length
    then ok (digest ++ (to_bytes 4 (length field) ++ field))
    else err value_error

-- the loop of `_digest_fields`
unfoldable pub update_all : Text → List Text → Result Text
unfolding update_framed
update_all digest [] = ok digest
update_all digest (field ∷ fields) = do
  updated ← update_framed digest field
  update_all updated fields

unfoldable pub framed_hkdf_info_field : Text → Result Text
unfolding to_bytes
framed_hkdf_info_field value =
    if leb (length value) max_framed_field_length
    then ok (to_bytes 4 (length value) ++ value)
    else err value_error

unfoldable pub framed_all : List Text → Result (List Text)
unfolding framed_hkdf_info_field
framed_all [] = ok []
framed_all (value ∷ values) = do
  framed ← framed_hkdf_info_field value
  rest ← framed_all values
  ok (framed ∷ rest)

unfoldable pub session_key_info : Text → Result Text
unfolding framed_all
session_key_info direction_label = do
  framed ←
      framed_all
        (domain_context ∷ session_key_schedule_label ∷ direction_label ∷ aes_256_gcm_key_label ∷ [])
  ok (concat framed)

module _ {Private Public : Type 0} (lib : Library Private Public) where
  unfoldable pub station_id_bytes : Text → Result Text
  station_id_bytes station_id =
      if is_empty station_id
      then err value_error
      else elim (lib.encode_utf8 station_id) [ none ↦ err value_error | some encoded ↦ ok encoded ]

  unfoldable pub digest_fields : Text → List Text → Result Text
  unfolding update_all
  digest_fields label fields = do
    digest ← update_all [] (domain_context ∷ label ∷ fields)
    ok (lib.sha256 digest)

  -- `_client_hello_fields`
  unfoldable pub client_hello_fields : Text → ℕ → Text → Text → Result (List Text)
  unfolding station_id_bytes timestamp_bytes
  client_hello_fields station_id timestamp random key = do
    station ← station_id_bytes station_id
    time ← timestamp_bytes timestamp
    random' ← required_bytes random
    key' ← required_bytes key
    ok (station ∷ time ∷ random' ∷ key' ∷ [])

  unfoldable pub build_client_auth_digest : Text → ℕ → Text → Text → Result Text
  unfolding client_hello_fields digest_fields
  build_client_auth_digest station_id timestamp client_random client_key = do
    fields ← client_hello_fields station_id timestamp client_random client_key
    digest_fields client_auth_label fields

  unfoldable pub build_server_auth_digest :
      Text → ℕ → Text → Text → Text → Text → Text → Result Text
  unfolding client_hello_fields digest_fields
  build_server_auth_digest station_id timestamp client_random client_key client_signature
        server_random server_key =
      do
        fields ← client_hello_fields station_id timestamp client_random client_key
        signature ← required_bytes client_signature
        random ← required_bytes server_random
        key ← required_bytes server_key
        digest_fields server_auth_label (fields ++ signature ∷ random ∷ key ∷ [])

  unfoldable pub build_session_transcript_hash :
      Text → ℕ → Text → Text → Text → Text → Text → Text → Result Text
  unfolding client_hello_fields digest_fields
  build_session_transcript_hash station_id timestamp client_random client_key client_signature
        server_random server_key server_signature =
      do
        fields ← client_hello_fields station_id timestamp client_random client_key
        signature ← required_bytes client_signature
        random ← required_bytes server_random
        key ← required_bytes server_key
        server_signed ← required_bytes server_signature
        digest_fields session_transcript_label
            (fields ++ signature ∷ random ∷ key ∷ server_signed ∷ [])

  unfoldable pub serialize_ephemeral_public_key : Public → Result Text
  serialize_ephemeral_public_key public = do
    check (lib.public_is_p256 public) value_error
    check (is_compressed (lib.compressed_point public)) runtime_error
    ok (lib.compressed_point public)

  unfoldable pub parse_ephemeral_public_key : Text → Result Public
  unfolding serialize_ephemeral_public_key
  parse_ephemeral_public_key encoded = do
    normalized ← required_bytes encoded
    check (is_compressed normalized) value_error
    elim (lib.from_encoded_point normalized) [
      | none ↦ err value_error
      | some public ↦ do
        canonical ← serialize_ephemeral_public_key public
        check (canonical == normalized) value_error
        ok public
    ]

  unfoldable pub derive_ephemeral_shared_secret : Private → Public → Result Text
  derive_ephemeral_shared_secret private public = do
    check (lib.private_is_p256 private) value_error
    check (lib.public_is_p256 public) value_error
    check (nat_beq (length (lib.exchange private public)) 32) runtime_error
    ok (lib.exchange private public)

  -- s in the lower half of the order
  abbrev pub low_s : ℕ → ℕ
  low_s s = if ltb p256_half_order s then p256_order - s else s

  -- `sign_transcript_digest` from the decoded numbers on
  unfoldable pub canonical_signature : Text → ℕ × ℕ → Result Text
  canonical_signature signature (r, s) = do
    check (is_valid_scalar r && is_valid_scalar s) runtime_error
    check (lib.encode_dss_signature r s == signature) runtime_error
    check (not (is_empty (lib.encode_dss_signature r (low_s s)))) runtime_error
    ok (lib.encode_dss_signature r (low_s s))

  unfoldable pub sign_transcript_digest : Private → Text → ℕ → Result Text
  unfolding canonical_signature
  sign_transcript_digest private digest random = do
    check (lib.private_is_p256 private) value_error
    check (nat_beq (length digest) 32) value_error
    check (not (is_empty (lib.sign private digest random))) runtime_error
    elim (lib.decode_dss_signature (lib.sign private digest random)) [
      | none ↦ err runtime_error
      | some numbers ↦ canonical_signature (lib.sign private digest random) numbers
    ]

  -- the checks of the decoded numbers, and then the verification
  unfoldable pub verify_numbers : Public → Text → Text → ℕ × ℕ → Bool
  verify_numbers public signature digest (r, s) =
      (is_valid_scalar r && is_valid_scalar s)
      && (leb s p256_half_order
          && (lib.encode_dss_signature r s == signature && lib.verify public signature digest))

  unfoldable pub verify_transcript_signature : Public → Text → Text → Result Bool
  unfolding verify_numbers
  verify_transcript_signature public signature digest = do
    check (lib.public_is_p256 public) value_error
    check (nat_beq (length digest) 32) value_error
    if is_empty signature then ok false else elim (lib.decode_dss_signature signature) [
      | none ↦ ok false
      | some numbers ↦ ok (verify_numbers public signature digest numbers)
    ]

  unfoldable pub derive_directional_session_key : Text → Text → Text → Result Text
  unfolding session_key_info
  derive_directional_session_key secret transcript_hash direction_label = do
    info ← session_key_info direction_label
    check (nat_beq (length (lib.hkdf transcript_hash info secret)) 32) runtime_error
    ok (lib.hkdf transcript_hash info secret)

  unfoldable pub derive_session_key_material : Text → Text → Result SessionKeyMaterial
  unfolding derive_directional_session_key
  derive_session_key_material secret transcript_hash = do
    check (nat_beq (length secret) 32) value_error
    check (nat_beq (length transcript_hash) 32) value_error
    to_server ← derive_directional_session_key secret transcript_hash client_to_server_label
    to_client ← derive_directional_session_key secret transcript_hash server_to_client_label
    check (not (to_server == to_client)) runtime_error
    ok (record { client_to_server_key = to_server; server_to_client_key = to_client })
