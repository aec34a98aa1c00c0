-- ===== src/Scanner/Spans.antt =====
-- core/nmea_scanner.py: where the spans of a scan are.
use aismixer.Prelude.{
  ℕ, zero, suc, ◌+◌, ◌-◌, ◌≤◌, ◌<◌, Bool, true, Option, none, some, List, [], ◌∷◌, ◌≡◌, ◌≢◌, ◌⊎◌,
  refl, ◌∙◌, ap, sym, false, arith, Text, nat_beq, nat_beq_iff, ltb, ltb→lt, length, take,
  get_elem?, lt→leb-false, Bool-cases, Option-cases, inl, inr,
}
use aismixer.Scanner.{
  ByteSpan, ScanMatch, is_checksum, is_backslash, body_length, match_length, find_spans,
  last_backslash, find_adjacent_tag, scan_loop, scan_nmea_sentences,
}
use aismixer.Scanner.Found.{
  IsSentence, AreSentences, find_spans-AreSentences, last_backslash-found, last_backslash-none,
  get_elem-take, get_elem-take_past,
}

-- Spans one after the other, from `low` on and up to `high`, none of them empty.
abbrev pub AreInOrder : ℕ → ℕ → List (ℕ × ℕ) → Type 0
AreInOrder low high [] = Unit
AreInOrder low high ((start, end) ∷ rest) =
    (low ≤ start) × ((start < end) × ((end ≤ high) × AreInOrder end high rest))

-- The TAG block of a sentence ends where the sentence starts, with a backslash, and begins with the
-- last backslash before that one. There is none at the start of the payload, or if the byte before
-- the sentence is not a backslash, or if no other backslash is before that one.
abbrev pub IsTag : Text → ℕ → Option ByteSpan → Type 0
IsTag payload start none =
    (start ≡ 0)
    ⊎ ((get_elem? payload (start - 1) ≢ some 92)
        ⊎ ((i : ℕ) → i < start - 1 → get_elem? payload i ≢ some 92))
IsTag payload start (some tag) =
    (tag.end ≡ start)
    × ((tag.start + 1 < start)
        × ((get_elem? payload (start - 1) ≡ some 92)
            × ((get_elem? payload tag.start ≡ some 92)
                × ((i : ℕ) → tag.start < i → i < start - 1 → get_elem? payload i ≢ some 92))))

-- Sentences one after the other from `low` up to `high`, each with its TAG block.
abbrev pub AreMatches : Text → ℕ → ℕ → List ScanMatch → Type 0
AreMatches payload low high [] = Unit
AreMatches payload low high (found ∷ rest) =
    (low ≤ found.sentence_span.start)
    × ((found.sentence_span.end ≤ high)
        × (IsSentence payload found.sentence_span.start found.sentence_span.end
            × (IsTag payload found.sentence_span.start found.tag_span
                × AreMatches payload found.sentence_span.end high rest)))

is_checksum-length : (xs : Text) → is_checksum xs ≡ true → 2 ≤ length xs
is_checksum-length [] h = absurd (ground (arith, h))
is_checksum-length (a ∷ []) h = absurd (ground (arith, h))
is_checksum-length (a ∷ b ∷ rest) h = omega arith

body_length-le : (xs : Text) (n : ℕ) → body_length xs ≡ some n → n ≤ length xs
unfolding body_length
body_length-le [] n h = absurd (ground (arith, h))
body_length-le (c ∷ cs) n h = elim (Option-cases (body_length cs)) [
  | inl unmatched ↦ ground (arith, h, unmatched, is_checksum-length cs)
  | inr (m, matched) ↦
      ground (arith, h, matched, is_checksum-length cs, body_length-le cs m matched)
]

match_length-le :
    (vdo : Bool) (xs : Text) (n : ℕ) → match_length vdo xs ≡ some n → (1 ≤ n) × (n ≤ length xs)
unfolding match_length
match_length-le vdo (bang ∷ a ∷ b ∷ v ∷ d ∷ kind ∷ comma ∷ rest) n h =
    elim (Option-cases (body_length rest)) [
      | inl unmatched ↦ absurd (ground (arith, h, unmatched))
      | inr (m, matched) ↦ ground (arith, h, matched, body_length-le rest m matched)
    ]
match_length-le vdo [] n h = absurd (ground (arith, h))
match_length-le vdo (bang ∷ []) n h = absurd (ground (arith, h))
match_length-le vdo (bang ∷ a ∷ []) n h = absurd (ground (arith, h))
match_length-le vdo (bang ∷ a ∷ b ∷ []) n h = absurd (ground (arith, h))
match_length-le vdo (bang ∷ a ∷ b ∷ v ∷ []) n h = absurd (ground (arith, h))
match_length-le vdo (bang ∷ a ∷ b ∷ v ∷ d ∷ []) n h = absurd (ground (arith, h))
match_length-le vdo (bang ∷ a ∷ b ∷ v ∷ d ∷ kind ∷ []) n h = absurd (ground (arith, h))

in_order_at :
    {low high low' high' : ℕ} (spans : List (ℕ × ℕ))
    → AreInOrder low high spans
    → low' ≤ low
    → high ≡ high'
    → AreInOrder low' high' spans
in_order_at [] h l e = tt
in_order_at ((start, end) ∷ rest) h l e = (
  omega (arith, h.0, l),
  (h.1.0, (omega (arith, h.1.1.0, e), in_order_at rest h.1.1.1 (omega arith) e)),
)

find_spans-AreInOrder :
    (vdo : Bool) (position skip : ℕ) (xs : Text)
    → skip ≤ length xs
    → AreInOrder (position + skip) (position + length xs) (find_spans vdo position skip xs)
unfolding find_spans
find_spans-AreInOrder vdo position skip [] h = tt
find_spans-AreInOrder vdo position (suc skip) (c ∷ cs) h =
    let i = find_spans-AreInOrder vdo (position + 1) skip cs (omega (arith, h)) in
    in_order_at (find_spans vdo (position + 1) skip cs) i (omega arith) (omega arith)
find_spans-AreInOrder vdo position zero (c ∷ cs) h =
    elim (Option-cases (match_length vdo (c ∷ cs))) [
      | inl unmatched ↦
          rw (find_spans, unmatched)
            (in_order_at (find_spans vdo (position + 1) 0 cs)
              (find_spans-AreInOrder vdo (position + 1) 0 cs (omega arith)) (omega arith)
              (omega arith))
      | inr (n, matched) ↦
          let (some_bytes, fits) = match_length-le vdo (c ∷ cs) n matched in
          let i = find_spans-AreInOrder vdo (position + 1) (n - 1) cs (omega (arith, fits)) in
          rw (find_spans, matched)
            (
              omega arith,
              (
                omega (arith, some_bytes),
                (
                  omega (arith, fits),
                  in_order_at (find_spans vdo (position + 1) (n - 1) cs) i
                      (omega (arith, some_bytes)) (omega arith),
                ),
              ),
            )
    ]

is_backslash_lem : (o : Option ℕ) → is_backslash o ≡ true → o ≡ some 92
is_backslash_lem none h = absurd (ground arith)
is_backslash_lem (some c) h = ground (arith, nat_beq_iff c 92)

not_backslash : (o : Option ℕ) → is_backslash o ≡ false → o ≢ some 92
not_backslash none h p = absurd (ground arith)
not_backslash (some c) h p = ground (arith, nat_beq_iff c 92)

-- `rfind` in the bytes before a position
module _ (payload : Text) (limit : ℕ) where
  backslash_before :
      (n : ℕ)
      → last_backslash 0 (take limit payload) ≡ some n
      → (n < limit)
        × (get_elem? payload n ≡ some 92)
        × ((i : ℕ) → n < i → i < limit → get_elem? payload i ≢ some 92)
  backslash_before n h =
      let (m, e, at, last) = last_backslash-found 0 (take limit payload) n h in
      let same : m ≡ n = omega (arith, e) in
      let lt : m < limit = elim (Bool-cases (ltb m limit)) [
        | inl is ↦ ltb→lt m limit is
        | inr past ↦
            absurd (ground (arith, at, get_elem-take_past limit payload m (ground (arith, past))))
      ] in
      (
        omega (arith, lt, same),
        ap (get_elem? payload) (sym same) ∙ (sym (get_elem-take limit payload m lt) ∙ at),
        λ i after before p.
            last i (omega (arith, after, same)) (get_elem-take limit payload i before ∙ p),
      )

  no_backslash_before :
      last_backslash 0 (take limit payload) ≡ none
      → (i : ℕ) → i < limit
      → get_elem? payload i ≢ some 92
  no_backslash_before h i before p =
      last_backslash-none 0 (take limit payload) h i (get_elem-take limit payload i before ∙ p)

find_adjacent_tag-IsTag :
    (payload : Text) (start : ℕ)
    → (tag : Option ByteSpan) × (find_adjacent_tag payload start ≡ some tag)
      × IsTag payload start tag
unfolding find_adjacent_tag
find_adjacent_tag-IsTag payload start = elim (Bool-cases (nat_beq start 0)) [
  | inl first ↦ (none, rw first refl, inl (ground (arith, nat_beq_iff start 0)))
  | inr later ↦ elim (Bool-cases (is_backslash (get_elem? payload (start - 1)))) [
    | inr plain ↦ (none, rw (later, plain) refl, inr (inl (not_backslash _ plain)))
    | inl tagged ↦ elim (Option-cases (last_backslash 0 (take (start - 1) payload))) [
      | inl unopened ↦ (
        none,
        rw (later, tagged, unopened) refl,
        inr (inr (no_backslash_before payload (start - 1) unopened)),
      )
      | inr (tag_start, opened) ↦
          let (before, at, last) = backslash_before payload (start - 1) tag_start opened in
          let lt : tag_start < start = omega (arith, before) in
          (
            some (record { start = tag_start; end = start }),
            rw (later, tagged, opened, lt→leb-false start tag_start lt) refl,
            (
              refl,
              (
                omega (arith, before),
                (is_backslash_lem (get_elem? payload (start - 1)) tagged, (at, last)),
              ),
            ),
          )
    ]
  ]
]

scan_loop-AreMatches :
    (payload : Text) (low high : ℕ) (spans : List (ℕ × ℕ))
    → AreInOrder low high spans
    → AreSentences payload spans
    → (matches : List ScanMatch) × (scan_loop payload spans ≡ some matches)
      × AreMatches payload low high matches
unfolding scan_loop
scan_loop-AreMatches payload low high [] h are = ([], refl, tt)
scan_loop-AreMatches payload low high ((start, end) ∷ rest) h are =
    let (tag, tagged, is) = find_adjacent_tag-IsTag payload start in
    let (matches, others, later) = scan_loop-AreMatches payload end high rest h.1.1.1 are.1 in
    (
      record { sentence_span = record { start = start; end = end }; tag_span = tag } ∷ matches,
      rw (scan_loop, lt→leb-false end start h.1.0, tagged, others) refl,
      (h.0, (h.1.1.0, (are.0, (is, later)))),
    )

-- Every payload is scanned without an exception. The sentences that are found are one after the
-- other and within the payload, each at least ten bytes long, with ! as its first byte and * as its
-- third last one. The TAG block of a sentence is exactly the bytes from the last but one backslash
-- to the sentence if a backslash is right before the sentence and another one before that; else
-- there is none.
pub scan_nmea_sentences-AreMatches :
    (payload : Text) (include_vdo : Bool)
    → (matches : List ScanMatch) × (scan_nmea_sentences payload include_vdo ≡ some matches)
      × AreMatches payload 0 (length payload) matches
unfolding scan_nmea_sentences
scan_nmea_sentences-AreMatches payload include_vdo =
    scan_loop-AreMatches payload 0 (length payload) (find_spans include_vdo 0 0 payload)
      (in_order_at (find_spans include_vdo 0 0 payload)
        (find_spans-AreInOrder include_vdo 0 0 payload (omega arith)) (omega arith) (omega arith))
      (find_spans-AreSentences payload include_vdo 0 0 payload
        (λ i. ap (get_elem? payload) (omega arith)))
