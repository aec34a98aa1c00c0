-- ===== src/Udpsec/Bytes.antt =====
-- Byte strings, as core/udpsec_crypto.py and core/udpsec_protocol.py work with them.
use aismixer.Prelude.{
  ℕ, zero, suc, ◌+◌, ◌-◌, ◌*◌, ◌/◌, ◌%◌, Bool, true, false, ◌&&◌, ◌||◌, List, [], ◌∷◌, ◌++◌, Text,
  ltb, leb, nat_beq, if◌then◌else◌,
}

-- `n.to_bytes(width, "big")` of a number that fits
unfoldable pub to_bytes : ℕ → ℕ → Text
to_bytes zero n = []
to_bytes (suc width) n = to_bytes width (n / 256) ++ (n % 256) ∷ []

-- `packet.split(b"|")`, and how a byte joins the first part
abbrev pub before_first : ℕ → List Text → List Text
before_first c [] = (c ∷ []) ∷ []
before_first c (part ∷ parts) = (c ∷ part) ∷ parts

unfoldable pub split : Text → List Text
split [] = [] ∷ []
split (c ∷ cs) = let rest = split cs in if nat_beq c 124 then [] ∷ rest else before_first c rest

-- `b"|".join(parts)`
unfoldable pub join : List Text → Text
join [] = []
join (part ∷ []) = part
join (part ∷ next ∷ rest) = part ++ 124 ∷ join (next ∷ rest)

-- `b"".join(parts)`
abbrev pub concat : List Text → Text
concat [] = []
concat (part ∷ parts) = part ++ concat parts

-- `a < b` on byte strings
unfoldable pub is_less : Text → Text → Bool
is_less [] [] = false
is_less [] (y ∷ ys) = true
is_less (x ∷ xs) [] = false
is_less (x ∷ xs) (y ∷ ys) = ltb x y || nat_beq x y && is_less xs ys

abbrev pub is_empty : Text → Bool
is_empty [] = true
is_empty (c ∷ cs) = false

-- `packet.startswith(prefix)`
abbrev pub starts_with : Text → Text → Bool
starts_with [] packet = true
starts_with (p ∷ ps) [] = false
starts_with (p ∷ ps) (c ∷ cs) = nat_beq p c && starts_with ps cs

abbrev pub is_digit : ℕ → Bool
is_digit c = leb 48 c && leb c 57

abbrev pub all_digits : Text → Bool
all_digits [] = true
all_digits (c ∷ cs) = is_digit c && all_digits cs

-- `str(n)`, on more fuel than the number has digits
unfoldable pub decimal_digits : ℕ → ℕ → Text
decimal_digits zero n = []
decimal_digits (suc fuel) n = elim (ltb n 10) [
  | true ↦ (48 + n) ∷ []
  | false ↦ decimal_digits fuel (n / 10) ++ (48 + n % 10) ∷ []
]

unfoldable pub decimal : ℕ → Text
unfolding decimal_digits
decimal n = decimal_digits (suc n) n

-- `int(digits)`, with the value of the digits before
unfoldable pub int_from : ℕ → Text → ℕ
int_from value [] = value
int_from value (c ∷ cs) = int_from (10 * value + (c - 48)) cs
