-- ===== src/Udpsec/Signatures.antt =====
-- core/udpsec_crypto.py: `sign_transcript_digest` and `verify_transcript_signature`.
use aismixer.Prelude.{
  ℕ, ◌-◌, Bool, true, false, ◌&&◌, not, Option, none, some, ◌≡◌, ◌≢◌, refl, ◌∙◌, sym, ap, arith,
  Text, text_eq, ◌==◌, ltb, leb, nat_beq, if◌then◌else◌, length, Result, ok, err, value_error,
  runtime_error, Bool-cases, inl, inr, list_beq_iff, nat_eq,
}
use aismixer.Udpsec.{Library, check, >>=-ok, check-ok, ok_injective}
use aismixer.Udpsec.Bytes.{is_empty}
use aismixer.Udpsec.Crypto.{
  p256_order, p256_half_order, is_valid_scalar, low_s, canonical_signature, sign_transcript_digest,
  verify_numbers, verify_transcript_signature,
}

three-true : (a b c d : Bool) → ((a && b) && (c && d)) ≡ true → (a ≡ true) × (b ≡ true) × (c ≡ true)
three-true true true true d h = (refl, refl, refl)
three-true true true false d h = absurd (ground (arith, h))
three-true true false c d h = absurd (ground (arith, h))
three-true false b c d h = absurd (ground (arith, h))

other_half :
    (s : ℕ)
    → is_valid_scalar s ≡ true
    → leb s p256_half_order ≡ true
    → (is_valid_scalar (p256_order - s) ≡ true) × (leb (p256_order - s) p256_half_order ≡ false)
other_half s h i = (ground (arith, h, i), ground (arith, h, i))

module _ {Private Public : Type 0} (lib : Library Private Public) where
  -- What the code relies on: the DER codec reads back what it writes for numbers in range, and
  -- ECDSA verifies what the private key's own `sign` returns, as well with n - s for s.
  pub record IsEcdsa : Type 0 where
    pub decodes :
        (r s : ℕ)
        → is_valid_scalar r ≡ true
        → is_valid_scalar s ≡ true
        → lib.decode_dss_signature (lib.encode_dss_signature r s) ≡ some (r, s)
    pub verifies :
        (key : Private) (digest : Text) (random : ℕ)
        → lib.verify (lib.public_key key) (lib.sign key digest random) digest ≡ true
    pub symmetric :
        (key : Public) (digest : Text) (r s : ℕ)
        → is_valid_scalar r ≡ true
        → is_valid_scalar s ≡ true
        → lib.verify key (lib.encode_dss_signature r (p256_order - s)) digest
          ≡ lib.verify key (lib.encode_dss_signature r s) digest
    pub same_curve :
        (key : Private) → lib.public_is_p256 (lib.public_key key) ≡ lib.private_is_p256 key

  low_s-low :
      (s : ℕ)
      → is_valid_scalar s ≡ true
      → (is_valid_scalar (low_s lib s) ≡ true) × (leb (low_s lib s) p256_half_order ≡ true)
  low_s-low s h = (ground (arith, h), ground (arith, h))

  -- what the checks of a decoded signature leave
  record Canonical (signature : Text) (r s : ℕ) (result : Text) : Type 0 where
    valid : (is_valid_scalar r ≡ true) × (is_valid_scalar s ≡ true)
    encoded : lib.encode_dss_signature r s ≡ signature
    nonempty : is_empty result ≡ false
    is : result ≡ lib.encode_dss_signature r (low_s lib s)

  canonical_signature-ok :
      (signature : Text) (r s : ℕ) (result : Text)
      → canonical_signature lib signature (r, s) ≡ ok result
      → Canonical signature r s result
  unfolding canonical_signature
  canonical_signature-ok signature r s result h =
      let (_, q1, h1) =
        >>=-ok (check (is_valid_scalar r && is_valid_scalar s) runtime_error) _ result h in
      let (_, q2, h2) =
        >>=-ok (check (lib.encode_dss_signature r s == signature) runtime_error) _ result h1 in
      let (_, q3, h3) =
        >>=-ok (check (not (is_empty (lib.encode_dss_signature r (low_s lib s)))) runtime_error) _
          result h2 in
      record {
        valid =
            ground (arith, check-ok (is_valid_scalar r && is_valid_scalar s) runtime_error _ q1);
        encoded =
            (list_beq_iff (lib.encode_dss_signature r s) signature).0
              (check-ok (lib.encode_dss_signature r s == signature) runtime_error _ q2);
        nonempty = ground (
          arith,
          check-ok (not (is_empty (lib.encode_dss_signature r (low_s lib s)))) runtime_error _ q3,
          ok_injective _ result h3,
        );
        is = sym (ok_injective _ result h3);
      }

  low_s-verifies :
      (e : IsEcdsa) (key : Public) (digest : Text) (r s : ℕ)
      → is_valid_scalar r ≡ true
      → is_valid_scalar s ≡ true
      → lib.verify key (lib.encode_dss_signature r (low_s lib s)) digest
        ≡ lib.verify key (lib.encode_dss_signature r s) digest
  low_s-verifies e key digest r s hr hs = elim (Bool-cases (ltb p256_half_order s)) [
    | inl high ↦ rw high (e.symmetric key digest r s hr hs)
    | inr low ↦ rw low refl
  ]

  numbers-low :
      (key : Public) (signature digest : Text) (r s : ℕ) (empty : Bool) (numbers : Option (ℕ × ℕ))
      → numbers ≡ some (r, s)
      → (if empty then ok false else elim numbers as (λ _. Result Bool) [
        | none ↦ ok false
        | some n ↦ ok (verify_numbers lib key signature digest n)
      ])
        ≡ ok true
      → (is_valid_scalar r ≡ true) × (is_valid_scalar s ≡ true) × (leb s p256_half_order ≡ true)
  unfolding verify_numbers
  numbers-low key signature digest r s true numbers d h = absurd (ground (arith, h))
  numbers-low key signature digest r s false numbers d h =
      let v : verify_numbers lib key signature digest (r, s) ≡ true = ok_injective _ true (
        ap
          (λ (o : Option (ℕ × ℕ)). (elim o as (λ _. Result Bool) [
            | none ↦ ok false
            | some n ↦ ok (verify_numbers lib key signature digest n)
          ]))
          (sym d)
        ∙ h) in
      three-true (is_valid_scalar r) (is_valid_scalar s) (leb s p256_half_order) _ v

  accepted :
      (key : Public) (signature digest : Text) (r s : ℕ)
      → lib.public_is_p256 key ≡ true
      → nat_beq (length digest) 32 ≡ true
      → is_empty signature ≡ false
      → lib.decode_dss_signature signature ≡ some (r, s)
      → is_valid_scalar r ≡ true
      → is_valid_scalar s ≡ true
      → leb s p256_half_order ≡ true
      → lib.encode_dss_signature r s ≡ signature
      → lib.verify key signature digest ≡ true
      → verify_transcript_signature lib key signature digest ≡ ok true
  unfolding verify_transcript_signature verify_numbers
  accepted key signature digest r s curve size nonempty decoded hr hs low canonical verified =
      let same : (lib.encode_dss_signature r s == signature) ≡ true =
        (list_beq_iff (lib.encode_dss_signature r s) signature).1 canonical in
      rw (curve, size, nonempty, decoded, hr, hs, low, same, verified) refl

  -- what an accepted signature decodes to is in the lower half
  accepted-low :
      (key : Public) (signature digest : Text) (r s : ℕ)
      → verify_transcript_signature lib key signature digest ≡ ok true
      → lib.decode_dss_signature signature ≡ some (r, s)
      → (is_valid_scalar r ≡ true) × (is_valid_scalar s ≡ true) × (leb s p256_half_order ≡ true)
  unfolding verify_transcript_signature
  accepted-low key signature digest r s h decoded =
      let (_, q1, h1) = >>=-ok (check (lib.public_is_p256 key) value_error) _ true h in
      let (_, q2, h2) = >>=-ok (check (nat_beq (length digest) 32) value_error) _ true h1 in
      numbers-low key signature digest r s (is_empty signature) (lib.decode_dss_signature signature)
        decoded h2

  decoded-ok :
      (numbers : Option (ℕ × ℕ)) (f : ℕ × ℕ → Result Text) (result : Text)
      → (elim numbers as (λ _. Result Text) [ none ↦ err runtime_error | some n ↦ f n ]) ≡ ok result
      → (n : ℕ × ℕ) × (numbers ≡ some n) × (f n ≡ ok result)
  decoded-ok none f result h = absurd (ground (arith, h))
  decoded-ok (some n) f result h = (n, refl, h)

  -- What `sign_transcript_digest` returns, `verify_transcript_signature` accepts with the public key.
  -- The conditions are what IsEcdsa says of the package.
  pub verify_transcript_signature-sign :
      (key : Private) (digest signature : Text) (random : ℕ)
      → IsEcdsa
      → sign_transcript_digest lib key digest random ≡ ok signature
      → verify_transcript_signature lib (lib.public_key key) signature digest ≡ ok true
  unfolding sign_transcript_digest verify_transcript_signature verify_numbers
  verify_transcript_signature-sign key digest signature random e h =
      let drawn = lib.sign key digest random in
      let (_, q1, h1) = >>=-ok (check (lib.private_is_p256 key) value_error) _ signature h in
      let (_, q2, h2) = >>=-ok (check (nat_beq (length digest) 32) value_error) _ signature h1 in
      let (_, q3, h3) = >>=-ok (check (not (is_empty drawn)) runtime_error) _ signature h2 in
      let (numbers, q4, h4) =
        decoded-ok (lib.decode_dss_signature drawn) (canonical_signature lib drawn) signature h3 in
      let (r, s) = numbers in
      let c = canonical_signature-ok drawn r s signature h4 in
      let low = low_s-low s c.valid.1 in
      accepted (lib.public_key key) signature digest r (low_s lib s)
        (e.same_curve key ∙ check-ok (lib.private_is_p256 key) value_error _ q1)
        (check-ok (nat_beq (length digest) 32) value_error _ q2) c.nonempty
        (ap lib.decode_dss_signature c.is ∙ e.decodes r (low_s lib s) c.valid.0 low.0) c.valid.0
        low.0 low.1 (sym c.is)
        (ap (λ x. lib.verify (lib.public_key key) x digest) c.is
          ∙ low_s-verifies e (lib.public_key key) digest r s c.valid.0 c.valid.1
          ∙ ap (λ x. lib.verify (lib.public_key key) x digest) c.encoded
          ∙ e.verifies key digest random)

  -- When a signature that decodes to (r, s) is accepted, the encoding of (r, n - s), which ECDSA
  -- verifies alike, is not accepted for the same key and digest. The condition is what IsEcdsa says of
  -- the package.
  pub verify_transcript_signature-other :
      (key : Public) (signature digest : Text) (r s : ℕ)
      → IsEcdsa
      → verify_transcript_signature lib key signature digest ≡ ok true
      → lib.decode_dss_signature signature ≡ some (r, s)
      → verify_transcript_signature lib key (lib.encode_dss_signature r (p256_order - s)) digest
        ≢ ok true
  verify_transcript_signature-other key signature digest r s e h decoded again =
      let (hr, hs, low) = accepted-low key signature digest r s h decoded in
      let (hs', high) = other_half s hs low in
      let (_, _, low') =
        accepted-low key (lib.encode_dss_signature r (p256_order - s)) digest r (p256_order - s)
          again (e.decodes r (p256_order - s) hr hs') in
      ground (arith, high, low')
