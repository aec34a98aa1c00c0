-- ===== src/OutputLines.antt =====
-- core/output_builder.py and meta_writer.py: the bytes of one output line, with its TAG block. What
-- strict UTF-8 makes of a text, surrogates included, is a parameter.
use aismixer.Prelude.{
  ℕ, zero, suc, ◌+◌, ◌*◌, ◌/◌, ◌%◌, Bool, true, false, Option, none, some, [], ◌∷◌, ◌++◌, Text,
  codes, ltb, nat_beq, if◌then◌else◌, Result, ok, err, value_error,
}
use aismixer.Udpsec.Bytes.{decimal}

pub data Timestamp : Type 0 where
  number : ℕ → Timestamp
  text : Text → Timestamp

-- `a ^ b`, on the lowest bits
unfoldable pub xor_bits : ℕ → ℕ → ℕ → ℕ
xor_bits zero a b = 0
xor_bits (suc bits) a b = (a % 2 + b % 2) % 2 + 2 * xor_bits bits (a / 2) (b / 2)

-- Code points have 21 bits.
unfoldable pub checksum_from : ℕ → Text → ℕ
unfolding xor_bits
checksum_from checksum [] = checksum
checksum_from checksum (ch ∷ data_left) = checksum_from (xor_bits 21 checksum ch) data_left

abbrev pub hex_digit : ℕ → ℕ
hex_digit n = if ltb n 10 then 48 + n else 55 + n

unfoldable pub hex_digits : ℕ → ℕ → Text
hex_digits zero n = []
hex_digits (suc fuel) n = elim (ltb n 16) [
  | true ↦ hex_digit n ∷ []
  | false ↦ hex_digits fuel (n / 16) ++ hex_digit (n % 16) ∷ []
]

-- `02X`; six digits are enough for 21 bits
unfoldable pub nmea_checksum : Text → Text
unfolding checksum_from hex_digits
nmea_checksum content =
    let checksum = checksum_from 0 content in
    if ltb checksum 16 then 48 ∷ hex_digit checksum ∷ [] else hex_digits 6 checksum

unfoldable pub format_header : Text → Text
unfolding nmea_checksum
format_header content =
    codes "\\" ++ (content ++ (codes "*" ++ (nmea_checksum content ++ codes "\\")))

abbrev pub commas : Text → ℕ
commas [] = 0
commas (c ∷ line) = if nat_beq c 44 then 1 + commas line else commas line

-- the text of the timestamp: the clock's if there is none, or 0, or the empty text
unfoldable pub timestamp_text : ℕ → Option Timestamp → Text
timestamp_text clock none = decimal clock
timestamp_text clock (some (number n)) = if nat_beq n 0 then decimal clock else decimal n
timestamp_text clock (some (text [])) = decimal clock
timestamp_text clock (some (text (c ∷ v))) = c ∷ v

abbrev pub tag_fields : Text → Text → Text
tag_fields timestamp station_id = codes "c:" ++ (timestamp ++ (codes ",s:" ++ station_id))

unfoldable pub header_of : Text → Text → Bool → Option Text → Text
unfolding format_header
header_of timestamp station_id is_first none = format_header (tag_fields timestamp station_id)
header_of timestamp station_id is_first (some []) = format_header (tag_fields timestamp station_id)
header_of timestamp station_id is_first (some (c ∷ g_triplet)) =
    if is_first
    then format_header (tag_fields timestamp station_id ++ (codes ",g:" ++ c ∷ g_triplet))
    else format_header (codes "g:" ++ c ∷ g_triplet)

-- A line of fewer than four parts between commas gets no header.
unfoldable pub wrap_with_meta : Text → Text → Option Timestamp → Bool → Option Text → ℕ → Text
unfolding timestamp_text header_of
wrap_with_meta nmea_line station_id timestamp is_first g_triplet clock =
    if ltb (commas nmea_line) 3
    then nmea_line
    else header_of (timestamp_text clock timestamp) station_id is_first g_triplet ++ nmea_line

-- `none` of the encoder is UnicodeEncodeError, a ValueError.
unfoldable pub build_output_bytes :
    (Text → Option Text) → Text → Text → Option Timestamp → Bool → Option Text → ℕ → Result Text
unfolding wrap_with_meta
build_output_bytes encode nmea_line station_id timestamp is_first g_triplet clock =
    elim (encode
      (wrap_with_meta nmea_line station_id timestamp is_first g_triplet clock ++ 13 ∷ 10 ∷ [])) [
        | none ↦ err value_error
        | some message ↦ ok message
      ]
