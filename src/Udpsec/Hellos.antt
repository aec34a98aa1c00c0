-- ===== src/Udpsec/Hellos.antt =====
-- core/udpsec_protocol.py: the client hello, built and parsed.
use mathlib.Core.Path.{subst}
use mathlib.Core.Option.{some-injective}
use aismixer.Prelude.{
  Bool, true, false, not, Option, none, some, List, [], ◌∷◌, ◌≡◌, refl, ◌∙◌, sym, ap, arith, Text,
  text_eq, nat_eq, ◌==◌, list_beq_iff, leb, leb→le, member, Result, ok, err, value_error,
}
use aismixer.Udpsec.{Library, ◌>>◌, check, >>=-ok, check-ok, ok_injective}
use aismixer.Udpsec.Bytes.{split, join, is_empty, decimal}
use aismixer.Udpsec.Crypto.{max_timestamp, is_compressed}
use aismixer.Udpsec.Decimal.{parse_timestamp-decimal, decimal-bar, parse_timestamp-ok}
use aismixer.Udpsec.Packets.{IsBarless, split-join, join-split}
use aismixer.Udpsec.Protocol.{
  client_hello_prefix, ClientHello, is_random, parse_timestamp, packet_station_id,
  make_client_hello, decode_base64, build_client_hello_packet, parse_client_fields,
  parse_client_hello_packet,
}

six-same :
    {p p' s t t' r r' k k' g g' : Text}
    → p ≡ p'
    → t' ≡ t
    → r' ≡ r
    → k' ≡ k
    → g' ≡ g
    → Path (List Text) (p ∷ s ∷ t ∷ r ∷ k ∷ g ∷ []) (p' ∷ s ∷ t' ∷ r' ∷ k' ∷ g' ∷ [])
six-same {p} {p'} {s} {t} {t'} {r} {r'} {k} {k'} {g} {g'} q1 q2 q3 q4 q5 =
    rw (q1, q2, q3, q4, q5) refl

random-nonempty : (b : Text) → is_random b ≡ true → is_empty b ≡ false
random-nonempty [] h = absurd (ground (arith, h))
random-nonempty (x ∷ b) h = refl

compressed-nonempty : (b : Text) → is_compressed b ≡ true → is_empty b ≡ false
compressed-nonempty [] h = absurd (ground (arith, h))
compressed-nonempty (x ∷ b) h = refl

not-ok : (test : Bool) (u : Unit {0}) → check (not test) value_error ≡ ok u → test ≡ false
not-ok true u h = absurd (ground (arith, h))
not-ok false u h = refl

encoded-ok :
    (found : Option Text) (b : Text)
    → (elim found as (λ _. Result Text) [ none ↦ err value_error | some encoded ↦ ok encoded ])
      ≡ ok b
    → found ≡ some b
encoded-ok none b h = absurd (ground (arith, h))
encoded-ok (some a) b h = ap some (ok_injective a b h)

module _ {Private Public : Type 0} (lib : Library Private Public) where
  -- What the codecs do: strict UTF-8 decodes exactly what it encodes and has a bar exactly where the
  -- text has one; base64 decodes what it encodes, with no bar, and encodes no byte to nothing.
  pub record IsCodec : Type 0 where
    pub decodes : (a b : Text) → lib.encode_utf8 a ≡ some b → lib.decode_utf8 b ≡ some a
    pub encodes : (a b : Text) → lib.decode_utf8 b ≡ some a → lib.encode_utf8 a ≡ some b
    pub barless : (a b : Text) → lib.encode_utf8 a ≡ some b → member 124 b ≡ member 124 a
    pub unbase : (b : Text) → lib.b64decode (lib.b64encode b) ≡ some b
    pub base_barless : (b : Text) → IsBarless (lib.b64encode b)
    pub base_nonempty : (b : Text) → is_empty b ≡ false → is_empty (lib.b64encode b) ≡ false

  decode_base64-b64encode :
      IsCodec → (b : Text) → is_empty b ≡ false → decode_base64 lib (lib.b64encode b) ≡ ok b
  unfolding decode_base64
  decode_base64-b64encode c b h =
      let same : (lib.b64encode b == lib.b64encode b) ≡ true =
        (list_beq_iff (lib.b64encode b) (lib.b64encode b)).1 refl in
      rw (c.base_nonempty b h, c.unbase b, same) refl

  decoded-same :
      (a b : Text) (found : Option Text)
      → (elim found as (λ _. Result Text) [
        | none ↦ err value_error
        | some decoded ↦ check (lib.b64encode decoded == a) value_error >> ok decoded
      ])
        ≡ ok b
      → lib.b64encode b ≡ a
  decoded-same a b none h = absurd (ground (arith, h))
  decoded-same a b (some d) h =
      let (_, q, h1) = >>=-ok (check (lib.b64encode d == a) value_error) _ b h in
      ap lib.b64encode (sym (ok_injective d b h1))
      ∙ (list_beq_iff (lib.b64encode d) a).0 (check-ok (lib.b64encode d == a) value_error _ q)

  decode_base64-ok : (a b : Text) → decode_base64 lib a ≡ ok b → lib.b64encode b ≡ a
  unfolding decode_base64
  decode_base64-ok a b h =
      let (_, q, h1) = >>=-ok (check (not (is_empty a)) value_error) _ b h in
      decoded-same a b (lib.b64decode a) h1

  -- what the constructor's checks leave
  record IsHello (h : ClientHello) : Type 0 where
    station : Text
    encoded : lib.encode_utf8 h.station_id ≡ some station
    station_nonempty : is_empty h.station_id ≡ false
    station_barless : IsBarless h.station_id
    in_range : leb h.timestamp max_timestamp ≡ true
    random : is_random h.client_random ≡ true
    key : is_compressed h.client_ephemeral_public_key ≡ true
    signature : is_empty h.client_signature ≡ false

  make_client_hello-ok : (h g : ClientHello) → make_client_hello lib h ≡ ok g → IsHello h × (g ≡ h)
  unfolding make_client_hello packet_station_id
  make_client_hello-ok h g p =
      let (station, q, p1) = >>=-ok (packet_station_id lib h.station_id) _ g p in
      let (_, q1, r1) = >>=-ok (check (not (is_empty h.station_id)) value_error) _ station q in
      let (_, q2, r2) = >>=-ok (check (not (member 124 h.station_id)) value_error) _ station r1 in
      let (_, q3, p2) = >>=-ok (check (leb h.timestamp max_timestamp) value_error) _ g p1 in
      let (_, q4, p3) = >>=-ok (check (is_random h.client_random) value_error) _ g p2 in
      let (_, q5, p4) =
        >>=-ok (check (is_compressed h.client_ephemeral_public_key) value_error) _ g p3 in
      let (_, q6, p5) = >>=-ok (check (not (is_empty h.client_signature)) value_error) _ g p4 in
      (
        record {
          station = station;
          encoded = encoded-ok (lib.encode_utf8 h.station_id) station r2;
          station_nonempty = not-ok (is_empty h.station_id) _ q1;
          station_barless = not-ok (member 124 h.station_id) _ q2;
          in_range = check-ok (leb h.timestamp max_timestamp) value_error _ q3;
          random = check-ok (is_random h.client_random) value_error _ q4;
          key = check-ok (is_compressed h.client_ephemeral_public_key) value_error _ q5;
          signature = not-ok (is_empty h.client_signature) _ q6;
        },
        sym (ok_injective h g p5),
      )

  packet_station_id-is :
      (h : ClientHello) (i : IsHello h) → packet_station_id lib h.station_id ≡ ok i.station
  unfolding packet_station_id
  packet_station_id-is h i = rw (i.station_nonempty, i.station_barless, i.encoded) refl

  make_client_hello-is : (h : ClientHello) → IsHello h → make_client_hello lib h ≡ ok h
  unfolding make_client_hello
  make_client_hello-is h i =
      rw (packet_station_id-is h i, i.in_range, i.random, i.key, i.signature) refl

  -- the parts of a packet
  abbrev parts_of : ClientHello → Text → List Text
  parts_of h station =
      station
      ∷ decimal h.timestamp
      ∷ lib.b64encode h.client_random
      ∷ lib.b64encode h.client_ephemeral_public_key
      ∷ lib.b64encode h.client_signature
      ∷ []

  build_client_hello_packet-is :
      (h : ClientHello) (i : IsHello h)
      → build_client_hello_packet lib h ≡ ok (join (client_hello_prefix ∷ parts_of h i.station))
  unfolding build_client_hello_packet
  build_client_hello_packet-is h i = rw (packet_station_id-is h i) refl

  fields-parsed :
      (station time random key signature : Text) (h : ClientHello)
      → lib.decode_utf8 station ≡ some h.station_id
      → parse_timestamp time ≡ ok h.timestamp
      → decode_base64 lib random ≡ ok h.client_random
      → decode_base64 lib key ≡ ok h.client_ephemeral_public_key
      → decode_base64 lib signature ≡ ok h.client_signature
      → make_client_hello lib h ≡ ok h
      → parse_client_fields lib
          (client_hello_prefix ∷ station ∷ time ∷ random ∷ key ∷ signature ∷ [])
        ≡ ok h
  unfolding parse_client_fields
  fields-parsed station time random key signature h q1 q2 q3 q4 q5 m = rw (q1, q2, q3, q4, q5) m

  -- A hello that can be made is built to a packet, which is parsed to the hello. The condition is what
  -- IsCodec says of the codecs.
  pub parse_client_hello_packet-build :
      (h : ClientHello)
      → IsCodec
      → make_client_hello lib h ≡ ok h
      → (packet : Text) × (build_client_hello_packet lib h ≡ ok packet)
        × (parse_client_hello_packet lib packet ≡ ok h)
  unfolding parse_client_hello_packet
  parse_client_hello_packet-build h c m =
      let i = (make_client_hello-ok h h m).0 in
      (
        join (client_hello_prefix ∷ parts_of h i.station),
        build_client_hello_packet-is h i,
        ap (parse_client_fields lib) (
              split-join client_hello_prefix (parts_of h i.station) refl (
                c.barless h.station_id i.station i.encoded ∙ i.station_barless,
                (
                  decimal-bar h.timestamp,
                  (
                    c.base_barless h.client_random,
                    (
                      c.base_barless h.client_ephemeral_public_key,
                      (c.base_barless h.client_signature, tt),
                    ),
                  ),
                ),
              ))
            ∙ fields-parsed i.station (decimal h.timestamp) _ _ _ h
                (c.decodes h.station_id i.station i.encoded)
                (parse_timestamp-decimal h.timestamp (leb→le h.timestamp max_timestamp i.in_range))
                (decode_base64-b64encode c h.client_random
                  (random-nonempty h.client_random i.random))
                (decode_base64-b64encode c h.client_ephemeral_public_key
                  (compressed-nonempty h.client_ephemeral_public_key i.key))
                (decode_base64-b64encode c h.client_signature i.signature) m,
      )

  -- What parsed fields are.
  record Parsed (fields : List Text) (h : ClientHello) : Type 0 where
    station : Text
    decoded : lib.decode_utf8 station ≡ some h.station_id
    made : IsHello h
    are : fields ≡ client_hello_prefix ∷ parts_of h station

  station-decoded :
      (found : Option Text) (f : Text → Result ClientHello) (h : ClientHello)
      → (elim found as (λ _. Result ClientHello) [ none ↦ err value_error | some a ↦ f a ]) ≡ ok h
      → (a : Text) × (found ≡ some a) × (f a ≡ ok h)
  station-decoded none f h p = absurd (ground (arith, p))
  station-decoded (some a) f h p = (a, refl, p)

  parse_client_fields-Parsed :
      (fields : List Text) (h : ClientHello)
      → parse_client_fields lib fields ≡ ok h
      → Parsed fields h
  unfolding parse_client_fields
  parse_client_fields-Parsed [] h p = absurd (ground (arith, p))
  parse_client_fields-Parsed (a ∷ []) h p = absurd (ground (arith, p))
  parse_client_fields-Parsed (a ∷ b ∷ []) h p = absurd (ground (arith, p))
  parse_client_fields-Parsed (a ∷ b ∷ c ∷ []) h p = absurd (ground (arith, p))
  parse_client_fields-Parsed (a ∷ b ∷ c ∷ d ∷ []) h p = absurd (ground (arith, p))
  parse_client_fields-Parsed (a ∷ b ∷ c ∷ d ∷ e ∷ []) h p = absurd (ground (arith, p))
  parse_client_fields-Parsed (a ∷ b ∷ c ∷ d ∷ e ∷ f ∷ g ∷ rest) h p = absurd (ground (arith, p))
  parse_client_fields-Parsed (prefix ∷ station ∷ time ∷ random ∷ key ∷ signature ∷ []) h p =
      let (_, q0, p0) = >>=-ok (check (prefix == client_hello_prefix) value_error) _ h p in
      let (name, q1, p1) = station-decoded (lib.decode_utf8 station) _ h p0 in
      let (timestamp, q2, p2) = >>=-ok (parse_timestamp time) _ h p1 in
      let (client_random, q3, p3) = >>=-ok (decode_base64 lib random) _ h p2 in
      let (client_key, q4, p4) = >>=-ok (decode_base64 lib key) _ h p3 in
      let (client_signature, q5, p5) = >>=-ok (decode_base64 lib signature) _ h p4 in
      let hello : ClientHello = record {
        station_id = name;
        timestamp = timestamp;
        client_random = client_random;
        client_ephemeral_public_key = client_key;
        client_signature = client_signature;
      } in
      let (made, same) = make_client_hello-ok hello h p5 in
      let prefix_is : prefix ≡ client_hello_prefix =
        (list_beq_iff prefix client_hello_prefix).0
          (check-ok (prefix == client_hello_prefix) value_error _ q0) in
      record {
        station = station;
        decoded = q1 ∙ ap (λ (g : ClientHello). some g.station_id) (sym same);
        made = subst IsHello (sym same) made;
        are =
            six-same prefix_is (parse_timestamp-ok time timestamp q2)
              (decode_base64-ok random client_random q3) (decode_base64-ok key client_key q4)
              (decode_base64-ok signature client_signature q5)
            ∙ ap (λ g. client_hello_prefix ∷ parts_of g station) (sym same);
      }

  -- A packet that is parsed is the one that is built of what it was parsed to: no other packet is
  -- parsed to the same hello. The condition is what IsCodec says of the codecs.
  pub build-parse_client_hello_packet :
      (packet : Text) (h : ClientHello)
      → IsCodec
      → parse_client_hello_packet lib packet ≡ ok h
      → build_client_hello_packet lib h ≡ ok packet
  unfolding parse_client_hello_packet
  build-parse_client_hello_packet packet h c p =
      let r = parse_client_fields-Parsed (split packet) h p in
      let station_is : r.made.station ≡ r.station =
        some-injective _ _ (sym r.made.encoded ∙ c.encodes h.station_id r.station r.decoded) in
      build_client_hello_packet-is h r.made
      ∙ ap (λ s. ok (join (client_hello_prefix ∷ parts_of h s))) station_is
      ∙ ap (λ fields. ok (join fields)) (sym r.are)
      ∙ ap ok (join-split packet)
