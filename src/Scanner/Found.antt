-- ===== src/Scanner/Found.antt =====
-- core/nmea_scanner.py: which bytes of the payload `finditer` and `rfind` are at.
use aismixer.Prelude.{
  ℕ, zero, suc, ◌+◌, ◌-◌, ◌≤◌, ◌<◌, Bool, false, none, some, List, [], ◌∷◌, ◌≡◌, ◌≢◌, refl, ◌∙◌, ap,
  sym, arith, Text, nat_beq, nat_beq_iff, take, get_elem?, Bool-cases, Option-cases, inl, inr,
}
use aismixer.Scanner.{body_length, match_length, find_spans, last_backslash, is_checksum}

-- The span begins with ! and ends with * and the two digits of a checksum.
abbrev pub IsSentence : Text → ℕ → ℕ → Type 0
IsSentence payload start end =
    (start + 10 ≤ end)
    × ((get_elem? payload start ≡ some 33) × (get_elem? payload (end - 3) ≡ some 42))

abbrev pub AreSentences : Text → List (ℕ × ℕ) → Type 0
AreSentences payload [] = Unit
AreSentences payload ((start, end) ∷ rest) =
    IsSentence payload start end × AreSentences payload rest

body_length-star :
    (xs : Text) (n : ℕ)
    → body_length xs ≡ some n
    → (m : ℕ) × (n ≡ m + 3) × (get_elem? xs m ≡ some 42)
unfolding body_length
body_length-star [] n h = absurd (ground arith)
body_length-star (c ∷ cs) n h = elim (Bool-cases (nat_beq c 42)) [
  | inl star ↦ elim (Bool-cases (is_checksum cs)) [
    | inl digits ↦ (0, ground arith, ground (arith, nat_beq_iff c 42))
    | inr other ↦ elim (Option-cases (body_length cs)) [
      | inl unmatched ↦ absurd (ground arith)
      | inr (k, matched) ↦
          let (m, e, at) = body_length-star cs k matched in (suc m, ground arith, at)
    ]
  ]
  | inr other ↦ elim (Option-cases (body_length cs)) [
    | inl unmatched ↦ absurd (ground arith)
    | inr (k, matched) ↦ let (m, e, at) = body_length-star cs k matched in (suc m, ground arith, at)
  ]
]

match_length-found :
    (vdo : Bool) (xs : Text) (n : ℕ)
    → match_length vdo xs ≡ some n
    → (m : ℕ) × (n ≡ m + 10) × (get_elem? xs 0 ≡ some 33) × (get_elem? xs (m + 7) ≡ some 42)
unfolding match_length
match_length-found vdo (bang ∷ a ∷ b ∷ v ∷ d ∷ kind ∷ comma ∷ rest) n h =
    elim (Option-cases (body_length rest)) [
      | inl unmatched ↦ absurd (ground (arith, h, unmatched))
      | inr (k, matched) ↦
          let (m, e, at) = body_length-star rest k matched in
          let past : m + 7 ≡ suc (suc (suc (suc (suc (suc (suc m)))))) = omega arith in
          (
            m,
            ground (arith, h, matched, e),
            ground (arith, h, nat_beq_iff bang 33),
            ap (get_elem? (bang ∷ a ∷ b ∷ v ∷ d ∷ kind ∷ comma ∷ rest)) past ∙ at,
          )
    ]
match_length-found vdo [] n h = absurd (ground (arith, h))
match_length-found vdo (bang ∷ []) n h = absurd (ground (arith, h))
match_length-found vdo (bang ∷ a ∷ []) n h = absurd (ground (arith, h))
match_length-found vdo (bang ∷ a ∷ b ∷ []) n h = absurd (ground (arith, h))
match_length-found vdo (bang ∷ a ∷ b ∷ v ∷ []) n h = absurd (ground (arith, h))
match_length-found vdo (bang ∷ a ∷ b ∷ v ∷ d ∷ []) n h = absurd (ground (arith, h))
match_length-found vdo (bang ∷ a ∷ b ∷ v ∷ d ∷ kind ∷ []) n h = absurd (ground (arith, h))

-- `xs` is what the payload has from a position on.
abbrev IsAt : Text → ℕ → Text → Type 0
IsAt payload position xs = (i : ℕ) → get_elem? xs i ≡ get_elem? payload (position + i)

IsAt-next :
    (payload : Text) (position c : ℕ) (cs : Text)
    → IsAt payload position (c ∷ cs)
    → IsAt payload (position + 1) cs
IsAt-next payload position c cs h i = h (suc i) ∙ ap (get_elem? payload) (omega arith)

pub find_spans-AreSentences :
    (payload : Text) (vdo : Bool) (position skip : ℕ) (xs : Text)
    → IsAt payload position xs
    → AreSentences payload (find_spans vdo position skip xs)
unfolding find_spans
find_spans-AreSentences payload vdo position skip [] h = tt
find_spans-AreSentences payload vdo position (suc skip) (c ∷ cs) h =
    find_spans-AreSentences payload vdo (position + 1) skip cs (IsAt-next payload position c cs h)
find_spans-AreSentences payload vdo position zero (c ∷ cs) h =
    elim (Option-cases (match_length vdo (c ∷ cs))) [
      | inl unmatched ↦
          rw (find_spans, unmatched)
            (find_spans-AreSentences payload vdo (position + 1) 0 cs
              (IsAt-next payload position c cs h))
      | inr (n, matched) ↦
          let (m, e, bang, star) = match_length-found vdo (c ∷ cs) n matched in
          rw (find_spans, matched)
            (
              (
                omega (arith, e),
                (
                  ap (get_elem? payload) (omega arith) ∙ (sym (h 0) ∙ bang),
                  ap (get_elem? payload) (omega (arith, e)) ∙ (sym (h (m + 7)) ∙ star),
                ),
              ),
              find_spans-AreSentences payload vdo (position + 1) (n - 1) cs
                  (IsAt-next payload position c cs h),
            )
    ]

pub last_backslash-none :
    (position : ℕ) (xs : Text)
    → last_backslash position xs ≡ none
    → (i : ℕ) → get_elem? xs i ≢ some 92
unfolding last_backslash
last_backslash-none position [] h i p = absurd (ground arith)
last_backslash-none position (c ∷ cs) h i p =
    elim (Option-cases (last_backslash (position + 1) cs)) [
      | inr (m, found) ↦ absurd (ground arith)
      | inl unfound ↦ none_in i (last_backslash-none (position + 1) cs unfound) (ground arith) p
    ]
  where
    none_in :
        (i : ℕ)
        → ((j : ℕ) → get_elem? cs j ≢ some 92)
        → nat_beq c 92 ≡ false
        → get_elem? (c ∷ cs) i ≢ some 92
    none_in zero later plain q = ground (arith, nat_beq_iff c 92)
    none_in (suc j) later plain q = later j q

-- The index of the last backslash, or there is none.
pub last_backslash-found :
    (position : ℕ) (xs : Text) (n : ℕ)
    → last_backslash position xs ≡ some n
    → (m : ℕ) × (n ≡ position + m)
      × (get_elem? xs m ≡ some 92)
      × ((i : ℕ) → m < i → get_elem? xs i ≢ some 92)
unfolding last_backslash
last_backslash-found position [] n h = absurd (ground arith)
last_backslash-found position (c ∷ cs) n h =
    elim (Option-cases (last_backslash (position + 1) cs)) [
      | inl unfound ↦ (
        0,
        ground arith,
        ground (arith, nat_beq_iff c 92),
        λ i lt p. none_after i lt (last_backslash-none (position + 1) cs unfound) p,
      )
      | inr (k, found) ↦
          let (m, e, at, last) = last_backslash-found (position + 1) cs k found in
          (suc m, ground arith, at, λ i lt p. later i m lt last p)
    ]
  where
    none_after :
        (i : ℕ) → 0 < i → ((j : ℕ) → get_elem? cs j ≢ some 92) → get_elem? (c ∷ cs) i ≢ some 92
    none_after zero lt none_left q = absurd (omega arith)
    none_after (suc j) lt none_left q = none_left j q

    later :
        (i m : ℕ)
        → suc m < i
        → ((j : ℕ) → m < j → get_elem? cs j ≢ some 92)
        → get_elem? (c ∷ cs) i ≢ some 92
    later zero m lt last q = absurd (omega arith)
    later (suc j) m lt last q = last j (omega arith) q

pub get_elem-take : (k : ℕ) (xs : Text) (i : ℕ) → i < k → get_elem? (take k xs) i ≡ get_elem? xs i
get_elem-take zero xs i h = absurd (omega arith)
get_elem-take (suc k) [] i h = refl
get_elem-take (suc k) (x ∷ xs) zero h = refl
get_elem-take (suc k) (x ∷ xs) (suc i) h = get_elem-take k xs i (omega arith)

pub get_elem-take_past : (k : ℕ) (xs : Text) (i : ℕ) → k ≤ i → get_elem? (take k xs) i ≡ none
get_elem-take_past zero xs i h = refl
get_elem-take_past (suc k) [] i h = refl
get_elem-take_past (suc k) (x ∷ xs) zero h = absurd (omega arith)
get_elem-take_past (suc k) (x ∷ xs) (suc i) h = get_elem-take_past k xs i (omega arith)
