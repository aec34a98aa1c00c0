-- ===== src/Udpsec/Framing.antt =====
-- core/udpsec_crypto.py: the framing of transcript fields, read back.
use aismixer.Prelude.{
  ℕ, zero, suc, ◌*◌, ◌/◌, ◌%◌, ◌≤◌, ◌<◌, List, [], ◌∷◌, ◌++◌, ◌≡◌, refl, ◌∙◌, sym, ap, arith, Text,
  leb, leb→le, length, length-append, ok, value_error, All,
}
use aismixer.Udpsec.{>>=-ok, guarded-ok}
use aismixer.Udpsec.Bytes.{to_bytes}
use aismixer.Udpsec.Crypto.{max_framed_field_length, update_framed, update_all}

pub append_injective :
    (xs ys us vs : Text) → length xs ≡ length ys → xs ++ us ≡ ys ++ vs → (xs ≡ ys) × (us ≡ vs)
append_injective [] [] us vs n p = (refl, p)
append_injective [] (y ∷ ys) us vs n p = absurd (omega (arith, n))
append_injective (x ∷ xs) [] us vs n p = absurd (omega (arith, n))
append_injective (x ∷ xs) (y ∷ ys) us vs n p =
    let (same, rest) = append_injective xs ys us vs (omega (arith, n)) (ground (arith, p)) in
    (ground (arith, p, same), rest)

-- how many numbers have so many bytes
abbrev pub byte_range : ℕ → ℕ
byte_range zero = 1
byte_range (suc width) = 256 * byte_range width

pub length-to_bytes : (width n : ℕ) → length (to_bytes width n) ≡ width
unfolding to_bytes
length-to_bytes zero n = refl
length-to_bytes (suc width) n =
    length-append (to_bytes width (n / 256)) ((n % 256) ∷ [])
    ∙ omega (arith, length-to_bytes width (n / 256))

pub to_bytes_injective :
    (width n m : ℕ)
    → n < byte_range width
    → m < byte_range width
    → to_bytes width n ≡ to_bytes width m
    → n ≡ m
unfolding to_bytes
to_bytes_injective zero n m h i p = omega (arith, h, i)
to_bytes_injective (suc width) n m h i p =
    let (front, last) =
      append_injective (to_bytes width (n / 256)) (to_bytes width (m / 256)) _ _
        (length-to_bytes width (n / 256) ∙ sym (length-to_bytes width (m / 256))) p in
    let high : n / 256 ≡ m / 256 =
      to_bytes_injective width (n / 256) (m / 256) (omega (arith, h)) (omega (arith, i)) front in
    let low : n % 256 ≡ m % 256 = ground (arith, last) in omega (arith, high, low)

-- a field that the four bytes can measure
abbrev pub IsFramable : Text → Type 0
IsFramable field = length field ≤ max_framed_field_length

-- what a digest is updated with, field by field
unfoldable pub frames : List Text → Text
unfolding to_bytes
frames [] = []
frames (field ∷ fields) = to_bytes 4 (length field) ++ (field ++ frames fields)

append_assoc : (xs ys zs : Text) → (xs ++ ys) ++ zs ≡ xs ++ (ys ++ zs)
append_assoc [] ys zs = refl
append_assoc (x ∷ xs) ys zs = rw (append_assoc xs ys zs) refl

pub append_nil : {A : Type 0} (xs : List A) → xs ++ [] ≡ xs
append_nil [] = refl
append_nil (x ∷ xs) = rw (append_nil xs) refl

update_framed-ok :
    (digest field updated : Text)
    → update_framed digest field ≡ ok updated
    → IsFramable field × (updated ≡ digest ++ (to_bytes 4 (length field) ++ field))
unfolding update_framed
update_framed-ok digest field updated h =
    let (short, grown) =
      guarded-ok (leb (length field) max_framed_field_length) value_error
        (digest ++ (to_bytes 4 (length field) ++ field)) updated h in
    (leb→le (length field) max_framed_field_length short, grown)

pub update_all-frames :
    (digest : Text) (fields : List Text) (all : Text)
    → update_all digest fields ≡ ok all
    → (all ≡ digest ++ frames fields) × All IsFramable fields
unfolding update_all update_framed frames
update_all-frames digest [] all h = (ground (arith, append_nil digest, h), tt)
update_all-frames digest (field ∷ fields) all h =
    let (updated, q, r) = >>=-ok (update_framed digest field) (λ d. update_all d fields) all h in
    let (short, grown) = update_framed-ok digest field updated q in
    let (rest, others) = update_all-frames updated fields all r in
    (
      rest
          ∙ ap (λ d. d ++ frames fields) grown
          ∙ append_assoc digest (to_bytes 4 (length field) ++ field) (frames fields)
          ∙ ap (λ x. digest ++ x) (append_assoc (to_bytes 4 (length field)) field (frames fields)),
      (short, others),
    )

pub frames_injective :
    (xs ys : List Text) → All IsFramable xs → All IsFramable ys → frames xs ≡ frames ys → xs ≡ ys
unfolding frames
frames_injective [] [] h i p = refl
frames_injective [] (y ∷ ys) h i p = absurd (ground (arith, p))
frames_injective (x ∷ xs) [] h i p = absurd (ground (arith, p))
frames_injective (x ∷ xs) (y ∷ ys) h i p =
    let (sizes, rest) =
      append_injective (to_bytes 4 (length x)) (to_bytes 4 (length y)) _ _
        (length-to_bytes 4 (length x) ∙ sym (length-to_bytes 4 (length y))) p in
    let same_size =
      to_bytes_injective 4 (length x) (length y) (omega (arith, h.0)) (omega (arith, i.0)) sizes in
    let (same, others) = append_injective x y _ _ same_size rest in
    rw (same, frames_injective xs ys h.1 i.1 others) refl
