-- ===== src/Udpsec/Decimal.antt =====
-- core/udpsec_protocol.py: the timestamp as a decimal text.
use aismixer.Prelude.{
  ℕ, zero, suc, ◌+◌, ◌-◌, ◌*◌, ◌/◌, ◌%◌, ◌≤◌, ◌<◌, true, false, ◌&&◌, ◌||◌, not, [], ◌∷◌, ◌++◌, ◌≡◌,
  refl, ◌∙◌, sym, ap, arith, Text, text_eq, nat_eq, ◌==◌, list_beq_iff, member, codes, ltb, nat_beq,
  ltb→lt, length, ok, value_error, Bool-cases, inl, inr,
}
use aismixer.Udpsec.{check, >>=-ok, check-ok, ok_injective}
use aismixer.Udpsec.Bytes.{is_less, all_digits, decimal_digits, decimal, int_from}
use aismixer.Udpsec.Crypto.{max_timestamp}
use aismixer.Udpsec.Protocol.{
  is_canonical_decimal, max_timestamp_ascii, parse_digits, parse_timestamp,
}

int_from-append : (v : ℕ) (xs ys : Text) → int_from v (xs ++ ys) ≡ int_from (int_from v xs) ys
unfolding int_from
int_from-append v [] ys = refl
int_from-append v (x ∷ xs) ys = int_from-append (10 * v + (x - 48)) xs ys

int_from-snoc :
    (v : ℕ) (xs : Text) (d : ℕ) → int_from v (xs ++ (48 + d) ∷ []) ≡ 10 * int_from v xs + d
unfolding int_from
int_from-snoc v xs d = int_from-append v xs ((48 + d) ∷ []) ∙ omega arith

all_digits-append : (xs ys : Text) → all_digits (xs ++ ys) ≡ (all_digits xs && all_digits ys)
all_digits-append [] ys = refl
all_digits-append (x ∷ xs) ys = ground (arith, all_digits-append xs ys)

-- what the digits of a number are
record Digits (n : ℕ) (xs : Text) : Type 0 where
  value : int_from 0 xs ≡ n
  digits : all_digits xs ≡ true
  lead : 0 < n → is_canonical_decimal xs ≡ true

is_canonical_decimal-append :
    (xs ys : Text)
    → is_canonical_decimal xs ≡ true
    → all_digits ys ≡ true
    → is_canonical_decimal (xs ++ ys) ≡ true
is_canonical_decimal-append [] ys h i = absurd (ground (arith, h))
is_canonical_decimal-append (x ∷ xs) ys h i = ground (arith, h, i, all_digits-append xs ys)

decimal_digits-Digits : (fuel n : ℕ) → n < fuel → Digits n (decimal_digits fuel n)
unfolding decimal_digits
decimal_digits-Digits zero n h = absurd (omega (arith, h))
decimal_digits-Digits (suc fuel) n h = elim (Bool-cases (ltb n 10)) [
  | inl small ↦
      rw (decimal_digits, small)
        (unfold int_from in
          record {
            value = omega arith;
            digits = ground (arith, small);
            lead = λ positive. ground (arith, small, positive);
          })
  | inr large ↦
      let big : 10 ≤ n = ground (arith, large) in
      let i = decimal_digits-Digits fuel (n / 10) (omega (arith, h, big)) in
      let front = decimal_digits fuel (n / 10) in
      let last : all_digits ((48 + n % 10) ∷ []) ≡ true = ground arith in
      rw (decimal_digits, large)
        (record {
          value = int_from-snoc 0 front (n % 10) ∙ omega (arith, i.value);
          digits = ground (arith, all_digits-append front ((48 + n % 10) ∷ []), i.digits, last);
          lead = λ positive.
              is_canonical_decimal-append front ((48 + n % 10) ∷ []) (i.lead (omega (arith, big)))
                last;
        })
]

decimal-Digits : (n : ℕ) → Digits n (decimal n)
unfolding decimal
decimal-Digits n = decimal_digits-Digits (suc n) n (omega arith)

-- Of two texts of as many digits, that after the greater number is the greater one.
int_from-greater :
    (v w : ℕ) (xs ys : Text)
    → length xs ≡ length ys
    → all_digits xs ≡ true
    → all_digits ys ≡ true
    → v < w
    → int_from v xs < int_from w ys
unfolding int_from
int_from-greater v w [] [] n h i lt = lt
int_from-greater v w [] (y ∷ ys) n h i lt = absurd (omega (arith, n))
int_from-greater v w (x ∷ xs) [] n h i lt = absurd (omega (arith, n))
int_from-greater v w (x ∷ xs) (y ∷ ys) n h i lt =
    int_from-greater (10 * v + (x - 48)) (10 * w + (y - 48)) xs ys (omega (arith, n))
      (ground (arith, h)) (ground (arith, i)) (ground (arith, h, i, lt))

int_from-is_less :
    (v : ℕ) (xs ys : Text)
    → length xs ≡ length ys
    → all_digits xs ≡ true
    → all_digits ys ≡ true
    → is_less xs ys ≡ true
    → int_from v xs < int_from v ys
unfolding int_from is_less
int_from-is_less v [] [] n h i lt = absurd (ground (arith, lt))
int_from-is_less v [] (y ∷ ys) n h i lt = absurd (omega (arith, n))
int_from-is_less v (x ∷ xs) [] n h i lt = absurd (omega (arith, n))
int_from-is_less v (x ∷ xs) (y ∷ ys) n h i lt = elim (Bool-cases (ltb x y)) [
  | inl smaller ↦
      int_from-greater (10 * v + (x - 48)) (10 * v + (y - 48)) xs ys (omega (arith, n))
        (ground (arith, h)) (ground (arith, i)) (ground (arith, h, i, smaller))
  | inr not_smaller ↦
      let same : x ≡ y = ground (arith, lt, not_smaller) in
      rw same (
        int_from-is_less (10 * v + (y - 48)) xs ys (omega (arith, n)) (ground (arith, h))
          (ground (arith, i)) (ground (arith, lt, not_smaller)))
]

-- A text of fewer digits is smaller than one after a positive number.
int_from-shorter :
    (v : ℕ) (xs ys : Text)
    → length xs ≤ length ys
    → all_digits xs ≡ true
    → all_digits ys ≡ true
    → 0 < v
    → int_from 0 xs < int_from v ys
unfolding int_from
int_from-shorter v xs [] n h i lt = int_from-greater 0 v xs [] (omega (arith, n)) h refl lt
int_from-shorter v xs (y ∷ ys) n h i lt = elim (Bool-cases (ltb (length ys) (length xs))) [
  | inl equal ↦ int_from-greater 0 v xs (y ∷ ys) (ground (arith, equal, n)) h i lt
  | inr less ↦
      int_from-shorter (10 * v + (y - 48)) xs ys (ground (arith, less)) h (ground (arith, i))
        (omega (arith, lt))
]

not_greater :
    (xs ys : Text)
    → all_digits xs ≡ true
    → all_digits ys ≡ true
    → is_canonical_decimal ys ≡ true
    → int_from 0 ys ≤ int_from 0 xs
    → (ltb (length xs) (length ys) || nat_beq (length ys) (length xs) && is_less xs ys) ≡ false
unfolding int_from
not_greater xs [] h i lead le = absurd (ground (arith, lead))
not_greater xs (y ∷ ys) h i lead le = elim (Bool-cases (ltb (length xs) (length (y ∷ ys)))) [
  | inl shorter ↦
      let start : 10 * 0 + (y - 48) ≡ y - 48 = omega arith in
      absurd (
        omega (
          arith,
          le,
          ap (λ v. int_from v ys) start,
          int_from-shorter (y - 48) xs ys (ground (arith, shorter)) h (ground (arith, i))
              (ground (arith, lead)),
        ))
  | inr longer ↦ elim (Bool-cases (nat_beq (length (y ∷ ys)) (length xs))) [
    | inr differ ↦ rw (longer, differ) refl
    | inl same ↦ elim (Bool-cases (is_less xs (y ∷ ys))) [
      | inr greater ↦ rw (longer, same, greater) refl
      | inl smaller ↦
          absurd
            (omega (arith, le, int_from-is_less 0 xs (y ∷ ys) (ground (arith, same)) h i smaller))
    ]
  ]
]

in_range :
    (n : ℕ)
    → 0 < n
    → n ≤ max_timestamp
    → (ltb (length max_timestamp_ascii) (length (decimal n))
        || nat_beq (length (decimal n)) (length max_timestamp_ascii)
          && is_less max_timestamp_ascii (decimal n))
      ≡ false
in_range n positive fits =
    let m = decimal-Digits max_timestamp in
    let d = decimal-Digits n in
    not_greater (decimal max_timestamp) (decimal n) m.digits d.digits (d.lead positive)
      (omega (arith, m.value, d.value, fits))

not_zero : (xs : Text) → is_canonical_decimal xs ≡ true → (xs == codes "0") ≡ false
not_zero [] h = absurd (ground (arith, h))
not_zero (x ∷ xs) h = ground (arith, h)

parsed :
    (xs : Text) (n : ℕ)
    → is_canonical_decimal xs ≡ true
    → (ltb (length max_timestamp_ascii) (length xs)
        || nat_beq (length xs) (length max_timestamp_ascii) && is_less max_timestamp_ascii xs)
      ≡ false
    → (decimal (int_from 0 xs) == xs) ≡ true
    → int_from 0 xs ≡ n
    → parse_timestamp xs ≡ ok n
unfolding parse_timestamp parse_digits
parsed xs n lead range same value =
    let plain : (xs == codes "0") ≡ false = not_zero xs lead in
    rw (plain, lead, range, same, value) refl

parse_zero : (n : ℕ) → n ≡ 0 → parse_timestamp (decimal n) ≡ ok n
unfolding parse_timestamp decimal
parse_zero n z = rw z refl

-- A timestamp of 64 bits is read back from its decimal text.
pub parse_timestamp-decimal : (n : ℕ) → n ≤ max_timestamp → parse_timestamp (decimal n) ≡ ok n
unfolding parse_timestamp
parse_timestamp-decimal n fits = elim (Bool-cases (ltb 0 n)) [
  | inl positive ↦
      let d = decimal-Digits n in
      let lead = d.lead (ltb→lt 0 n positive) in
      parsed (decimal n) n lead (in_range n (ltb→lt 0 n positive) fits)
        ((list_beq_iff (decimal (int_from 0 (decimal n))) (decimal n)).1 (ap decimal d.value))
        d.value
  | inr zero_time ↦ parse_zero n (ground (arith, zero_time))
]

parse_timestamp-zero : (xs : Text) → (xs == codes "0") ≡ true → parse_timestamp xs ≡ ok 0
unfolding parse_timestamp
parse_timestamp-zero xs h = rw h refl

parse_timestamp-other :
    (xs : Text) → (xs == codes "0") ≡ false → parse_timestamp xs ≡ parse_digits xs
unfolding parse_timestamp
parse_timestamp-other xs h = rw h refl

decimal-zero : decimal 0 ≡ codes "0"
unfolding decimal decimal_digits
decimal-zero = refl

parse_digits-ok : (xs : Text) (n : ℕ) → parse_digits xs ≡ ok n → decimal n ≡ xs
unfolding parse_digits
parse_digits-ok xs n h =
    let (_, q1, h1) = >>=-ok (check (is_canonical_decimal xs) value_error) _ n h in
    let (_, q2, h2) =
      >>=-ok
        (check
          (not (
            ltb (length max_timestamp_ascii) (length xs)
            || nat_beq (length xs) (length max_timestamp_ascii) && is_less max_timestamp_ascii xs))
          value_error)
        _ n h1 in
    let (_, q3, h3) = >>=-ok (check (decimal (int_from 0 xs) == xs) value_error) _ n h2 in
    ap decimal (sym (ok_injective _ n h3))
    ∙ (list_beq_iff (decimal (int_from 0 xs)) xs).0
        (check-ok (decimal (int_from 0 xs) == xs) value_error _ q3)

-- a text that is read as a timestamp is the decimal text of it
pub parse_timestamp-ok : (xs : Text) (n : ℕ) → parse_timestamp xs ≡ ok n → decimal n ≡ xs
parse_timestamp-ok xs n h = elim (Bool-cases (xs == codes "0")) [
  | inl zero_text ↦
      ap decimal (sym (ok_injective 0 n (sym (parse_timestamp-zero xs zero_text) ∙ h)))
      ∙ decimal-zero
      ∙ sym ((list_beq_iff xs (codes "0")).0 zero_text)
  | inr other_text ↦ parse_digits-ok xs n (sym (parse_timestamp-other xs other_text) ∙ h)
]

digits-bar : (xs : Text) → all_digits xs ≡ true → member 124 xs ≡ false
digits-bar [] h = refl
digits-bar (x ∷ xs) h = ground (arith, h, digits-bar xs)

pub decimal-bar : (n : ℕ) → member 124 (decimal n) ≡ false
decimal-bar n = digits-bar (decimal n) (decimal-Digits n).digits
