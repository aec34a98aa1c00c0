-- ===== src/Udpsec.antt =====
-- core/udpsec_crypto.py, core/udpsec_protocol.py and the listener of aismixer_secure.py: the secure
-- UDP protocol. What the package cryptography and the codecs UTF-8 and base64 do is an interface.
pub mod Bytes
pub mod Crypto
pub mod Framing
pub mod Transcripts
pub mod Signatures
pub mod Decimal
pub mod Protocol
pub mod Packets
pub mod Hellos
pub mod Messages
pub mod Safe
pub mod Admission
pub mod Rounds
pub mod Server
mod Tests
use aismixer.Prelude.{
  ℕ, Bool, true, false, Option, none, some, Text, Error, Result, ok, err, ◌≡◌, refl, sym, arith,
  if◌then◌else◌,
}

-- `Private` and `Public` are the P-256 keys.
pub record Library (Private Public : Type 0) : Type 0 where
  -- `encode` and `decode` of strict UTF-8; `none` where it raises
  pub encode_utf8 : Text → Option Text
  pub decode_utf8 : Text → Option Text
  -- `b64encode`, and `b64decode` with `validate`; `none` where it raises
  pub b64encode : Text → Text
  pub b64decode : Text → Option Text
  -- SHA-256 of all that the digest was updated with
  pub sha256 : Text → Text
  -- HKDF-SHA256 for 32 bytes: salt, info, input
  pub hkdf : Text → Text → Text → Text
  pub private_is_p256 : Private → Bool
  pub public_is_p256 : Public → Bool
  pub public_key : Private → Public
  -- `public_bytes` in compressed form, and `from_encoded_point`; `none` where it raises ValueError
  pub compressed_point : Public → Text
  pub from_encoded_point : Text → Option Public
  pub exchange : Private → Public → Text
  -- ECDSA over a prehashed digest; the last argument of `sign` is what it draws at random
  pub sign : Private → Text → ℕ → Text
  pub verify : Public → Text → Text → Bool
  -- the numbers r and s of a DER signature; `none` where it raises ValueError
  pub decode_dss_signature : Text → Option (ℕ × ℕ)
  pub encode_dss_signature : ℕ → ℕ → Text

infixl 5 ◌>>=◌ ◌>>◌
abbrev pub ◌>>=◌ : {A B : Type 0} → Result A → (A → Result B) → Result B
◌>>=◌ (ok a) f = f a
◌>>=◌ (err e) f = err e

abbrev pub ◌>>◌ : {A B : Type 0} → Result A → Result B → Result B
m >> k = m >>= λ _. k

-- `if not test: raise error`
abbrev pub check : Bool → Error → Result (Unit {0})
check test error = if test then ok tt else err error

pub >>=-ok :
    {A B : Type 0} (m : Result A) (f : A → Result B) (b : B)
    → (m >>= f) ≡ ok b
    → (a : A) × (m ≡ ok a) × (f a ≡ ok b)
>>=-ok (ok a) f b h = (a, refl, h)
>>=-ok (err e) f b h = absurd (ground (arith, h))

pub check-ok : (test : Bool) (error : Error) (u : Unit {0}) → check test error ≡ ok u → test ≡ true
check-ok true error u h = refl
check-ok false error u h = absurd (ground (arith, h))

pub ok_injective : {A : Type 0} (a b : A) → ok a ≡ ok b → a ≡ b
ok_injective a b h = ground (arith, h)

pub guarded-ok :
    {A : Type 0} (test : Bool) (error : Error) (a b : A)
    → (if test then ok a else err error) ≡ ok b
    → (test ≡ true) × (b ≡ a)
guarded-ok true error a b h = (refl, ok_injective b a (sym h))
guarded-ok false error a b h = absurd (ground (arith, h))
