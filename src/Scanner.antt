-- ===== src/Scanner.antt =====
-- core/nmea_scanner.py: the sentences of a payload and the TAG blocks before them. `none` where the
-- code raises ValueError.
pub mod Found
pub mod Spans
mod Tests
use aismixer.Prelude.{
  ℕ, zero, suc, ◌+◌, ◌-◌, Bool, true, false, ◌&&◌, ◌||◌, Option, none, some, List, [], ◌∷◌, Text,
  ltb, leb, nat_beq, if◌then◌else◌, length, take, get_elem?,
}

pub record ByteSpan : Type 0 where
  pub start : ℕ
  pub end : ℕ

-- the constructor, with `__post_init__`
abbrev pub make_span : ℕ → ℕ → Option ByteSpan
make_span start end = if leb end start then none else some (record { start = start; end = end })

pub record ScanMatch : Type 0 where
  pub sentence_span : ByteSpan
  pub tag_span : Option ByteSpan

-- AI, AB, AD, AN, AR, AS, AT, AX and BS
abbrev pub is_talker : ℕ → ℕ → Bool
is_talker a b =
    nat_beq a 65
      && (nat_beq b 73
          || (nat_beq b 66
              || (nat_beq b 68
                  || (nat_beq b 78
                      || (nat_beq b 82 || (nat_beq b 83 || (nat_beq b 84 || nat_beq b 88)))))))
    || nat_beq a 66 && nat_beq b 83

abbrev pub is_hex : ℕ → Bool
is_hex c = (leb 48 c && leb c 57) || ((leb 65 c && leb c 70) || (leb 97 c && leb c 102))

-- two hexadecimal digits
abbrev pub is_checksum : Text → Bool
is_checksum (a ∷ b ∷ rest) = is_hex a && is_hex b
is_checksum _ = false

-- the length that `[^\r\n]*?\*[0-9A-Fa-f]{2}` matches at the beginning
unfoldable pub body_length : Text → Option ℕ
body_length [] = none
body_length (c ∷ cs) =
    let rest = body_length cs in
    if nat_beq c 42 && is_checksum cs
    then some 3
    else if nat_beq c 13 || nat_beq c 10
    then none
    else elim rest [ none ↦ none | some n ↦ some (suc n) ]

-- the length that the pattern matches at the beginning
unfoldable pub match_length : Bool → Text → Option ℕ
unfolding body_length
match_length include_vdo (bang ∷ a ∷ b ∷ v ∷ d ∷ kind ∷ comma ∷ rest) =
    if (nat_beq bang 33 && is_talker a b)
      && ((nat_beq v 86 && nat_beq d 68)
          && ((nat_beq kind 77 || include_vdo && nat_beq kind 79) && nat_beq comma 44))
    then elim (body_length rest) [ none ↦ none | some n ↦ some (7 + n) ]
    else none
match_length include_vdo _ = none

-- `finditer`: the spans from a position on, of which the first `skip` bytes are matched already
unfoldable pub find_spans : Bool → ℕ → ℕ → Text → List (ℕ × ℕ)
unfolding match_length
find_spans include_vdo position skip [] = []
find_spans include_vdo position (suc skip) (c ∷ cs) = find_spans include_vdo (position + 1) skip cs
find_spans include_vdo position zero (c ∷ cs) = elim (match_length include_vdo (c ∷ cs)) [
  | none ↦ find_spans include_vdo (position + 1) 0 cs
  | some n ↦ (position, position + n) ∷ find_spans include_vdo (position + 1) (n - 1) cs
]

-- `rfind(b"\\")`: the last backslash of the bytes from a position on
unfoldable pub last_backslash : ℕ → Text → Option ℕ
last_backslash position [] = none
last_backslash position (c ∷ cs) =
    let later = last_backslash (position + 1) cs in
    elim later [ none ↦ if nat_beq c 92 then some position else none | some found ↦ some found ]

abbrev pub is_backslash : Option ℕ → Bool
is_backslash none = false
is_backslash (some c) = nat_beq c 92

-- the span, if there is a tag; `none` outside where the constructor raises
unfoldable pub find_adjacent_tag : Text → ℕ → Option (Option ByteSpan)
unfolding last_backslash
find_adjacent_tag payload start =
    if nat_beq start 0
    then some none
    else if is_backslash (get_elem? payload (start - 1))
    then elim (last_backslash 0 (take (start - 1) payload)) [
      | none ↦ some none
      | some tag_start ↦ elim (make_span tag_start start) [
        | none ↦ none
        | some span ↦ some (some span)
      ]
    ]
    else some none

abbrev pub match_of : Option ByteSpan → Option (Option ByteSpan) → Option ScanMatch
match_of (some sentence) (some tag) = some (record { sentence_span = sentence; tag_span = tag })
match_of _ _ = none

-- the loop over the matches
unfoldable pub scan_loop : Text → List (ℕ × ℕ) → Option (List ScanMatch)
unfolding find_adjacent_tag
scan_loop payload [] = some []
scan_loop payload ((start, end) ∷ rest) =
    let others = scan_loop payload rest in
    elim (match_of (make_span start end) (find_adjacent_tag payload start)) [
      | none ↦ none
      | some found ↦ elim others [ none ↦ none | some matches ↦ some (found ∷ matches) ]
    ]

unfoldable pub scan_nmea_sentences : Text → Bool → Option (List ScanMatch)
unfolding find_spans scan_loop
scan_nmea_sentences payload include_vdo = scan_loop payload (find_spans include_vdo 0 0 payload)
