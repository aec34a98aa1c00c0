-- ===== src/Udpsec/Transcripts.antt =====
-- core/udpsec_crypto.py: the three transcripts and their digests.
use mathlib.Core.Path.{subst}
use aismixer.Prelude.{
  ℕ, ◌≤◌, Option, none, some, List, [], ◌∷◌, ◌++◌, ◌≡◌, ◌≢◌, ◌⊎◌, refl, ◌∙◌, sym, ap, arith, Text,
  text_eq, leb, leb→le, list_beq, list_beq_iff, Result, ok, err, value_error, All, inl, inr,
  Bool-cases, nat_eq,
}
use aismixer.Udpsec.{Library, >>=-ok, guarded-ok, ok_injective}
use aismixer.Udpsec.Bytes.{to_bytes}
use aismixer.Udpsec.Crypto.{
  domain_context, client_auth_label, server_auth_label, session_transcript_label, max_timestamp,
  timestamp_bytes, required_bytes, update_all, station_id_bytes, digest_fields, client_hello_fields,
  build_client_auth_digest, build_server_auth_digest, build_session_transcript_hash,
}
use aismixer.Udpsec.Framing.{
  IsFramable, frames, update_all-frames, frames_injective, to_bytes_injective, append_nil,
}

-- the arguments that the three builders share
pub record Identity : Type 0 where
  pub station_id : Text
  pub timestamp : ℕ
  pub random : Text
  pub key : Text

-- a call of one of the builders: signatures, the server's random and its key after the identity
pub data Transcript : Type 0 where
  client_auth : Identity → Transcript
  server_auth : Identity → Text → Text → Text → Transcript
  session : Identity → Text → Text → Text → Text → Transcript

-- Two texts of one hash.
abbrev pub Collision : (Text → Text) → Type 0
Collision hash = (x : Text) × (y : Text) × (x ≢ y) × (hash x ≡ hash y)

-- `encode` in strict UTF-8 tells texts apart
abbrev pub IsEncoding : (Text → Option Text) → Type 0
IsEncoding encode = (a b bytes : Text) → encode a ≡ some bytes → encode b ≡ some bytes → a ≡ b

five_injective :
    {a b c d a' b' c' d' : Text} {xs ys : List Text}
    → a ∷ b ∷ c ∷ d ∷ xs ≡ a' ∷ b' ∷ c' ∷ d' ∷ ys
    → (a ≡ a') × (b ≡ b') × (c ≡ c') × (d ≡ d') × (xs ≡ ys)
five_injective p =
    (ground (arith, p), ground (arith, p), ground (arith, p), ground (arith, p), ground (arith, p))

three_injective :
    {a b c a' b' c' : Text} → a ∷ b ∷ c ∷ [] ≡ a' ∷ b' ∷ c' ∷ [] → (a ≡ a') × (b ≡ b') × (c ≡ c')
three_injective p = (ground (arith, p), ground (arith, p), ground (arith, p))

second_injective :
    {a b a' b' : Text} {xs ys : List Text} → a ∷ b ∷ xs ≡ a' ∷ b' ∷ ys → (b ≡ b') × (xs ≡ ys)
second_injective p = (ground (arith, p), ground (arith, p))

same_parts :
    (a b : Text) (m n : ℕ) (c d e f : Text)
    → a ≡ b
    → m ≡ n
    → c ≡ d
    → e ≡ f
    → Path Identity
        (record { station_id = a; timestamp = m; random = c; key = e })
        (record { station_id = b; timestamp = n; random = d; key = f })
same_parts a b m n c d e f p q r s = rw (p, q, r, s) refl

same_identity :
    {i j : Identity}
    → i.station_id ≡ j.station_id
    → i.timestamp ≡ j.timestamp
    → i.random ≡ j.random
    → i.key ≡ j.key
    → i ≡ j
same_identity {i} {j} p q r s =
    same_parts i.station_id j.station_id i.timestamp j.timestamp i.random j.random i.key j.key p q r
      s

same_four :
    (a b c d a' b' c' d' : Text)
    → a ≡ a'
    → b ≡ b'
    → c ≡ c'
    → d ≡ d'
    → Path (List Text) (a ∷ b ∷ c ∷ d ∷ []) (a' ∷ b' ∷ c' ∷ d' ∷ [])
same_four a b c d a' b' c' d' p q r s = rw (p, q, r, s) refl

encoded-ok :
    (found : Option Text) (b : Text)
    → (elim found as (λ _. Result Text) [ none ↦ err value_error | some encoded ↦ ok encoded ])
      ≡ ok b
    → found ≡ some b
encoded-ok none b h = absurd (ground (arith, h))
encoded-ok (some a) b h = ap some (ok_injective a b h)

module _ {Private Public : Type 0} (lib : Library Private Public) where
  unfoldable pub digest_of : Transcript → Result Text
  unfolding build_client_auth_digest build_server_auth_digest build_session_transcript_hash
  digest_of (client_auth i) = build_client_auth_digest lib i.station_id i.timestamp i.random i.key
  digest_of (server_auth i signature random key) =
      build_server_auth_digest lib i.station_id i.timestamp i.random i.key signature random key
  digest_of (session i signature random key server_signature) =
      build_session_transcript_hash lib i.station_id i.timestamp i.random i.key signature random key
        server_signature

  -- the fields of the identity, with what the checks let through
  record Fields (i : Identity) (fields : List Text) : Type 0 where
    station : Text
    encoded : lib.encode_utf8 i.station_id ≡ some station
    in_range : i.timestamp ≤ max_timestamp
    are : fields ≡ station ∷ to_bytes 8 i.timestamp ∷ i.random ∷ i.key ∷ []

  station_id_bytes-ok : (a b : Text) → station_id_bytes lib a ≡ ok b → lib.encode_utf8 a ≡ some b
  unfolding station_id_bytes
  station_id_bytes-ok [] b h = absurd (ground (arith, h))
  station_id_bytes-ok (c ∷ a) b h = encoded-ok (lib.encode_utf8 (c ∷ a)) b h

  required_bytes-ok : (a b : Text) → required_bytes a ≡ ok b → b ≡ a
  required_bytes-ok [] b h = absurd (ground (arith, h))
  required_bytes-ok (c ∷ a) b h = sym (ok_injective (c ∷ a) b h)

  client_hello_fields-ok :
      (i : Identity) (fields : List Text)
      → client_hello_fields lib i.station_id i.timestamp i.random i.key ≡ ok fields
      → Fields i fields
  unfolding client_hello_fields timestamp_bytes
  client_hello_fields-ok i fields h =
      let (station, q, h1) = >>=-ok (station_id_bytes lib i.station_id) _ fields h in
      let (time, q2, h2) = >>=-ok (timestamp_bytes i.timestamp) _ fields h1 in
      let (random, q3, h3) = >>=-ok (required_bytes i.random) _ fields h2 in
      let (key, q4, h4) = >>=-ok (required_bytes i.key) _ fields h3 in
      let (fits, time_is) =
        guarded-ok (leb i.timestamp max_timestamp) value_error (to_bytes 8 i.timestamp) time q2 in
      let random_is = required_bytes-ok i.random random q3 in
      let key_is = required_bytes-ok i.key key q4 in
      record {
        station = station;
        encoded = station_id_bytes-ok i.station_id station q;
        in_range = leb→le i.timestamp max_timestamp fits;
        are = sym (ok_injective _ fields h4) ∙ rw (time_is, random_is, key_is) refl;
      }

  -- The fields of a transcript with its label, as they are hashed.
  record Digested (label : Text) (i : Identity) (rest : List Text) (d : Text) : Type 0 where
    fields : List Text
    identity : Fields i fields
    framable : All IsFramable (domain_context ∷ label ∷ fields ++ rest)
    hashed : lib.sha256 (frames (domain_context ∷ label ∷ fields ++ rest)) ≡ d

  digest_fields-ok :
      (label : Text) (fields : List Text) (d : Text)
      → digest_fields lib label fields ≡ ok d
      → All IsFramable (domain_context ∷ label ∷ fields)
        × (lib.sha256 (frames (domain_context ∷ label ∷ fields)) ≡ d)
  unfolding digest_fields
  digest_fields-ok label fields d h =
      let (all, q, r) = >>=-ok (update_all [] (domain_context ∷ label ∷ fields)) _ d h in
      let (framed, short) = update_all-frames [] (domain_context ∷ label ∷ fields) all q in
      (short, ap lib.sha256 (sym framed) ∙ ok_injective (lib.sha256 all) d r)

  abbrev label_of : Transcript → Text
  label_of (client_auth i) = client_auth_label
  label_of (server_auth i s r k) = server_auth_label
  label_of (session i s r k t) = session_transcript_label

  abbrev identity_of : Transcript → Identity
  identity_of (client_auth i) = i
  identity_of (server_auth i s r k) = i
  identity_of (session i s r k t) = i

  abbrev rest_of : Transcript → List Text
  rest_of (client_auth i) = []
  rest_of (server_auth i s r k) = s ∷ r ∷ k ∷ []
  rest_of (session i s r k t) = s ∷ r ∷ k ∷ t ∷ []

  digest_of-Digested :
      (t : Transcript) (d : Text)
      → digest_of t ≡ ok d
      → Digested (label_of t) (identity_of t) (rest_of t) d
  unfolding digest_of build_client_auth_digest build_server_auth_digest
      build_session_transcript_hash
  digest_of-Digested (client_auth i) d h =
      let (fields, q, h1) =
        >>=-ok (client_hello_fields lib i.station_id i.timestamp i.random i.key) _ d h in
      let (short, hashed) = digest_fields-ok client_auth_label fields d h1 in
      let same : fields ≡ fields ++ [] = sym (append_nil fields) in
      record {
        fields = fields;
        identity = client_hello_fields-ok i fields q;
        framable =
            subst (λ fs. All IsFramable (domain_context ∷ client_auth_label ∷ fs)) same short;
        hashed =
            ap (λ fs. lib.sha256 (frames (domain_context ∷ client_auth_label ∷ fs))) (sym same)
            ∙ hashed;
      }
  digest_of-Digested (server_auth i s r k) d h =
      let (fields, q, h1) =
        >>=-ok (client_hello_fields lib i.station_id i.timestamp i.random i.key) _ d h in
      let (signature, q2, h2) = >>=-ok (required_bytes s) _ d h1 in
      let (random, q3, h3) = >>=-ok (required_bytes r) _ d h2 in
      let (key, q4, h4) = >>=-ok (required_bytes k) _ d h3 in
      let (short, hashed) =
        digest_fields-ok server_auth_label (fields ++ signature ∷ random ∷ key ∷ []) d h4 in
      let same : signature ∷ random ∷ key ∷ [] ≡ s ∷ r ∷ k ∷ [] =
        rw
          (
            required_bytes-ok s signature q2,
            required_bytes-ok r random q3,
            required_bytes-ok k key q4,
          )
          refl in
      record {
        fields = fields;
        identity = client_hello_fields-ok i fields q;
        framable = rw same at short;
        hashed = rw same at hashed;
      }
  digest_of-Digested (session i s r k t) d h =
      let (fields, q, h1) =
        >>=-ok (client_hello_fields lib i.station_id i.timestamp i.random i.key) _ d h in
      let (signature, q2, h2) = >>=-ok (required_bytes s) _ d h1 in
      let (random, q3, h3) = >>=-ok (required_bytes r) _ d h2 in
      let (key, q4, h4) = >>=-ok (required_bytes k) _ d h3 in
      let (signed, q5, h5) = >>=-ok (required_bytes t) _ d h4 in
      let (short, hashed) =
        digest_fields-ok session_transcript_label (fields ++ signature ∷ random ∷ key ∷ signed ∷ [])
          d h5 in
      let same : signature ∷ random ∷ key ∷ signed ∷ [] ≡ s ∷ r ∷ k ∷ t ∷ [] =
        same_four signature random key signed s r k t (required_bytes-ok s signature q2)
          (required_bytes-ok r random q3) (required_bytes-ok k key q4)
          (required_bytes-ok t signed q5) in
      record {
        fields = fields;
        identity = client_hello_fields-ok i fields q;
        framable =
            subst
              (λ rest. All IsFramable (domain_context ∷ session_transcript_label ∷ fields ++ rest))
              same short;
        hashed =
            ap
              (λ rest.
                lib.sha256 (frames (domain_context ∷ session_transcript_label ∷ fields ++ rest)))
              (sym same)
            ∙ hashed;
      }

  -- What the fields of two identities with what follows them say, where they are the same.
  record Agree (i j : Identity) (us vs : List Text) : Type 0 where
    identity : i ≡ j
    rest : us ≡ vs

  Fields-Agree :
      (i j : Identity) (xs ys us vs : List Text)
      → IsEncoding lib.encode_utf8
      → Fields i xs
      → Fields j ys
      → xs ++ us ≡ ys ++ vs
      → Agree i j us vs
  Fields-Agree i j xs ys us vs enc a b p =
      let all : a.station ∷ to_bytes 8 i.timestamp ∷ i.random ∷ i.key ∷ us
          ≡ b.station ∷ to_bytes 8 j.timestamp ∷ j.random ∷ j.key ∷ vs =
        ap (λ zs. zs ++ us) (sym a.are) ∙ p ∙ ap (λ zs. zs ++ vs) b.are in
      let (station, time, random, key, rest) = five_injective all in
      record {
        identity =
            same_identity
              (enc i.station_id j.station_id b.station (a.encoded ∙ ap some station) b.encoded)
              (to_bytes_injective 8 i.timestamp j.timestamp (omega (arith, a.in_range))
                (omega (arith, b.in_range)) time)
              random key;
        rest = rest;
      }

  same_transcript :
      (t u : Transcript) (xs ys : List Text)
      → IsEncoding lib.encode_utf8
      → Fields (identity_of t) xs
      → Fields (identity_of u) ys
      → label_of t ≡ label_of u
      → xs ++ rest_of t ≡ ys ++ rest_of u
      → t ≡ u
  same_transcript (client_auth i) (client_auth j) xs ys enc a b l p =
      ap client_auth (Fields-Agree i j xs ys _ _ enc a b p).identity
  same_transcript (client_auth i) (server_auth j s r k) xs ys enc a b l p =
      absurd (ground (arith, l))
  same_transcript (client_auth i) (session j s r k t) xs ys enc a b l p = absurd (ground (arith, l))
  same_transcript (server_auth i s r k) (client_auth j) xs ys enc a b l p =
      absurd (ground (arith, l))
  same_transcript (server_auth i s r k) (server_auth j s' r' k') xs ys enc a b l p =
      let e = Fields-Agree i j xs ys (s ∷ r ∷ k ∷ []) (s' ∷ r' ∷ k' ∷ []) enc a b p in
      let (same_s, same_r, same_k) = three_injective e.rest in
      rw (e.identity, same_s, same_r, same_k) refl
  same_transcript (server_auth i s r k) (session j s' r' k' t') xs ys enc a b l p =
      absurd (ground (arith, l))
  same_transcript (session i s r k t) (client_auth j) xs ys enc a b l p = absurd (ground (arith, l))
  same_transcript (session i s r k t) (server_auth j s' r' k') xs ys enc a b l p =
      absurd (ground (arith, l))
  same_transcript (session i s r k t) (session j s' r' k' t') xs ys enc a b l p =
      let e = Fields-Agree i j xs ys (s ∷ r ∷ k ∷ t ∷ []) (s' ∷ r' ∷ k' ∷ t' ∷ []) enc a b p in
      let (same_s, same_r, same_k, same_t, _) = five_injective (ap (λ zs. zs ++ [] ∷ []) e.rest) in
      rw (e.identity, same_s, same_r, same_k, same_t) refl

  -- Two calls of the digest builders that return one digest were calls of the same builder with the
  -- same station, time, randoms, keys and signatures, or else they show two texts that SHA-256 does not
  -- tell apart. The condition is that UTF-8 tells texts apart.
  pub digest_of_injective :
      (t u : Transcript) (d : Text)
      → IsEncoding lib.encode_utf8
      → digest_of t ≡ ok d
      → digest_of u ≡ ok d
      → (t ≡ u) ⊎ Collision lib.sha256
  digest_of_injective t u d enc h i =
      let a = digest_of-Digested t d h in
      let b = digest_of-Digested u d i in
      let x = domain_context ∷ label_of t ∷ a.fields ++ rest_of t in
      let y = domain_context ∷ label_of u ∷ b.fields ++ rest_of u in
      elim (Bool-cases (list_beq (frames x) (frames y))) [
        | inl same ↦
            let p =
              frames_injective x y a.framable b.framable
                ((list_beq_iff (frames x) (frames y)).0 same) in
            let (labels, parts) = second_injective p in
            inl (same_transcript t u a.fields b.fields enc a.identity b.identity labels parts)
        | inr differ ↦ inr (
          frames x,
          frames y,
          (λ q. absurd (ground (arith, differ, (list_beq_iff (frames x) (frames y)).1 q))),
          a.hashed ∙ sym b.hashed,
        )
      ]
