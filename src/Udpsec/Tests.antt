-- ===== src/Udpsec/Tests.antt =====
-- A toy library, a run of the listener, and the theorems at inputs that meet their hypotheses.
use aismixer.Prelude.{
  ℕ, suc, ◌+◌, ◌-◌, Bool, true, false, Option, none, some, List, [], ◌∷◌, ◌++◌, ◌≡◌, ◌≢◌, ◌⊎◌, refl,
  ap, arith, Text, text_eq, nat_eq, codes, nat_beq, take, drop, member, Result, ok, err,
}
use aismixer.Prelude.Dict.{insert, remove, lookup}
use aismixer.SecureState.{Limits, init, new_state}
use aismixer.Udpsec.{Library}
use aismixer.Udpsec.Bytes.{is_empty}
use aismixer.Udpsec.Crypto.{p256_order, sign_transcript_digest, verify_transcript_signature}
use aismixer.Udpsec.Transcripts.{Identity, client_auth, Collision, digest_of, digest_of_injective}
use aismixer.Udpsec.Signatures.{
  IsEcdsa, verify_transcript_signature-sign, verify_transcript_signature-other,
}
use aismixer.Udpsec.Protocol.{
  ClientHello, make_client_hello, build_client_hello_packet, parse_client_hello_packet,
}
use aismixer.Udpsec.Hellos.{
  IsCodec, parse_client_hello_packet-build, build-parse_client_hello_packet,
}
use aismixer.Udpsec.Messages.{words, whole, Loaded, object, not_object, Draws, data_prefix}
use aismixer.Udpsec.Server.{
  IngressFrame, Output, send, put, received, accepted, Listener, Datagram, Settings, serve_all,
}
use aismixer.Udpsec.Safe.{IsSafe}
use aismixer.Udpsec.Rounds.{IsAmong, serve_all-IsSafe}

abbrev copies : ℕ → ℕ → Text
copies ℕ.zero c = []
copies (suc n) c = c ∷ copies n c

abbrev raised : Text → Text
raised [] = []
raised (c ∷ cs) = (c + 125) ∷ raised cs

abbrev lowered : Text → Text
lowered [] = []
lowered (c ∷ cs) = (c - 125) ∷ lowered cs

abbrev point : Text → Option ℕ
point (two ∷ key ∷ rest) = some key
point _ = none

abbrev pair_of : Text → Option (ℕ × ℕ)
pair_of (r ∷ s ∷ []) = some (r, s)
pair_of _ = none

abbrev is_of : ℕ → Text → Bool
is_of key (r ∷ rest) = nat_beq r (suc key)
is_of key [] = false

-- Keys are numbers, and a signature shows the key.
abbrev toy : Library ℕ ℕ
toy = record {
  encode_utf8 = λ a. some a;
  decode_utf8 = λ b. some b;
  b64encode = raised;
  b64decode = λ b. some (lowered b);
  sha256 = λ b. take 32 (b ++ copies 32 0);
  hkdf = λ salt info secret. take 32 (drop 50 info);
  private_is_p256 = λ key. true;
  public_is_p256 = λ key. true;
  public_key = λ key. key;
  compressed_point = λ key. 2 ∷ copies 32 key;
  from_encoded_point = point;
  exchange = λ private public. copies 32 (private + public);
  sign = λ key digest random. suc key ∷ 1 ∷ [];
  verify = λ key signature digest. is_of key signature;
  decode_dss_signature = pair_of;
  encode_dss_signature = λ r s. r ∷ s ∷ [];
}

toy-IsEcdsa : IsEcdsa toy
toy-IsEcdsa = record {
  decodes = λ r s hr hs. refl;
  verifies = λ key digest random. ground arith;
  symmetric = λ key digest r s hr hs. refl;
  same_curve = λ key. refl;
}

lowered-raised : (b : Text) → lowered (raised b) ≡ b
lowered-raised [] = refl
lowered-raised (c ∷ cs) = ground (arith, lowered-raised cs)

raised-barless : (b : Text) → member 124 (raised b) ≡ false
raised-barless [] = refl
raised-barless (c ∷ cs) = ground (arith, raised-barless cs)

raised_nonempty : (b : Text) → is_empty b ≡ false → is_empty (raised b) ≡ false
raised_nonempty [] h = h
raised_nonempty (c ∷ cs) h = refl

toy-IsCodec : IsCodec toy
toy-IsCodec = record {
  decodes = λ a b h. ground (arith, h);
  encodes = λ a b h. ground (arith, h);
  barless = λ a b h. ground (arith, h);
  unbase = λ b. ap some (lowered-raised b);
  base_barless = raised-barless;
  base_nonempty = raised_nonempty;
}

abbrev digest : Text
digest = copies 32 9

verify_transcript_signature-sign_example :
    verify_transcript_signature toy 4 (5 ∷ 1 ∷ []) digest ≡ ok true
verify_transcript_signature-sign_example =
    verify_transcript_signature-sign toy 4 digest (5 ∷ 1 ∷ []) 0 toy-IsEcdsa
      (unfold sign_transcript_digest in refl)

verify_transcript_signature-other_example :
    verify_transcript_signature toy 4 (5 ∷ (p256_order - 1) ∷ []) digest ≢ ok true
verify_transcript_signature-other_example =
    verify_transcript_signature-other toy 4 (5 ∷ 1 ∷ []) digest 5 1 toy-IsEcdsa
      (unfold verify_transcript_signature in refl) refl

abbrev hello : ClientHello
hello = record {
  station_id = codes "A1";
  timestamp = 1000;
  client_random = copies 32 7;
  client_ephemeral_public_key = 2 ∷ copies 32 6;
  client_signature = 5 ∷ 1 ∷ [];
}

parse_client_hello_packet-build_example :
    (packet : Text) × (build_client_hello_packet toy hello ≡ ok packet)
    × (parse_client_hello_packet toy packet ≡ ok hello)
parse_client_hello_packet-build_example =
    parse_client_hello_packet-build toy hello toy-IsCodec (unfold make_client_hello in refl)

abbrev text_of : Result Text → Text
text_of (ok a) = a
text_of (err e) = []

abbrev hello_packet : Text
unfolding build_client_hello_packet
hello_packet = text_of (build_client_hello_packet toy hello)

build-parse_client_hello_packet_example : build_client_hello_packet toy hello ≡ ok hello_packet
unfolding hello_packet
build-parse_client_hello_packet_example =
    build-parse_client_hello_packet toy hello_packet hello toy-IsCodec
      (unfold parse_client_hello_packet in refl)

abbrev identity : Identity
identity = record {
  station_id = codes "A1";
  timestamp = 1000;
  random = copies 32 7;
  key = 2 ∷ copies 32 6;
}

abbrev identity_digest : Text
unfolding digest_of
identity_digest = text_of (digest_of toy (client_auth identity))

digest_of_injective_example : (client_auth identity ≡ client_auth identity) ⊎ Collision toy.sha256
unfolding identity_digest
digest_of_injective_example =
    digest_of_injective toy (client_auth identity) (client_auth identity) identity_digest
      (λ a b bytes p q. ground (arith, p, q)) (unfold digest_of in refl) (unfold digest_of in refl)

abbrev load : Text → Option Loaded
load (suc ℕ.zero ∷ rest) = some (
    object (
      (codes "type", words (codes "ping"))
      ∷ (codes "seq", whole 0)
      ∷ (codes "timestamp", whole 1000)
      ∷ (codes "source_id", words (codes "A1"))
      ∷ []))
load (suc (suc ℕ.zero) ∷ rest) = some (
    object (
      (codes "type", words (codes "nmea"))
      ∷ (codes "source_id", words (codes "A1"))
      ∷ (codes "payload", words (codes "!AIVDM"))
      ∷ []))
load _ = some not_object

abbrev settings : Settings ℕ ℕ ℕ ℕ
settings = record {
  library = toy;
  traffic = record {
    aes_encrypt = λ key nonce plain aad. plain;
    aes_decrypt = λ key nonce cipher aad. some cipher;
    json_loads = load;
    dump_pong = λ sequence timestamp source. source;
    encode_payload = λ a. a;
  };
  ip_library = record {
    ip_address = λ a. some 1;
    ip_network = λ a. some 1;
    host_network = λ a. a;
    ipv4_mapped = λ a. none;
    address_version = λ a. 4;
    network_version = λ n. 4;
    is_in = nat_beq;
    strip = λ a. a;
  };
  policy = record { networks = none };
  authorized_keys = (codes "A1", 4) ∷ [];
  server_private_key = 8;
  sec_input_id = none;
}

abbrev limits : Limits
limits = record {
  session_ttl = 30;
  max_sessions = 2;
  handshake_replay_ttl = 60;
  handshake_replay_max = 4;
  data_nonce_ttl = 10;
  data_nonce_max_per_session = 4;
  pending_session_ttl = 5;
  max_pending_sessions = 1;
}

abbrev draws : Draws ℕ
draws = record {
  server_random = copies 32 3;
  message_nonce = copies 12 1;
  ephemeral_private_key = 6;
  signature_random = 0;
  wall_now = 1010;
}

abbrev datagram : Text → Datagram
datagram packet = record {
  packet = packet;
  address = codes "a";
  source_ip = codes "ip";
  port = codes "1";
}

-- a secure packet: nonce and message
abbrev secure : ℕ → ℕ → Text
secure nonce message = data_prefix ++ copies 12 nonce ++ message ∷ copies 16 0

-- a handshake, its confirmation, a sentence, and the sentence's packet again
abbrev rounds : List (Draws ℕ × Datagram × ℕ)
unfolding hello_packet
rounds =
    (draws, datagram hello_packet, 0)
    ∷ (draws, datagram (secure 1 1), 1)
    ∷ (draws, datagram (secure 2 2), 2)
    ∷ (draws, datagram (secure 2 2), 3)
    ∷ []

abbrev frame : IngressFrame
frame = record {
  source_id = codes "udpsec:A1";
  alias_for_s = codes "A1";
  remote_ip = codes "ip";
  assembler_key = codes "ip:1";
  payload = codes "!AIVDM";
}

abbrev frames : List Output → List IngressFrame
frames [] = []
frames (put f ∷ rest) = f ∷ frames rest
frames (send p a ∷ rest) = frames rest
frames (received p ∷ rest) = frames rest
frames (accepted p ∷ rest) = frames rest

-- The sentence makes one frame; the repeated packet makes none.
frames-run :
    frames (serve_all settings rounds (record { state = new_state limits; outputs = [] })).1.outputs
    ≡ frame ∷ []
unfolding rounds serve_all insert remove lookup
frames-run = refl

serve_all-IsSafe_example :
    (l : Listener) × (serve_all settings rounds (record { state = new_state limits; outputs = [] })
      ≡ (ok tt, l))
    × IsSafe settings (IsAmong rounds) l
serve_all-IsSafe_example =
    serve_all-IsSafe settings limits (new_state limits) rounds (unfold init in refl)
