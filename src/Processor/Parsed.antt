-- ===== src/Processor/Parsed.antt =====
-- assembler.py: `feed_parsed_outcome`, on what the parser has checked.
use aismixer.Prelude.{
  ℕ, ◌≤◌, ◌<◌, none, some, [], ◌≡◌, inl, inr, refl, arith, ok, Option-cases, nat_eq, text_eq,
}
use aismixer.Assembler.{AssemblyKey, key_eq, invalid, AssemblyOutcome, Assembler, outcome}
use aismixer.Assembler.Fed.{counted}
use aismixer.Assembler.Invariant.{feed-Feeds, counted-IsValid}
use aismixer.Assembler.Invariant as Invariant
use aismixer.Assembler.Accounting.{Accounted, Ended-Accounted}
use aismixer.Dedup.{cache_key_eq}
use aismixer.Processor.{lines_eq, ParsedFragment, ParsedSentence, feed_parsed_outcome}

-- What the parser has checked of a fragment.
abbrev pub IsParsed : ParsedSentence → Type 0
IsParsed parsed =
    (f : ParsedFragment)
    → parsed.fragment ≡ some f
    → (1 ≤ f.ordinal) × (f.ordinal ≤ f.declared_total)

pub record FedParsed (now : ℕ) (parsed : ParsedSentence) (s : Assembler) : Type 0 where
  pub result : AssemblyOutcome
  pub after : Assembler
  pub runs : feed_parsed_outcome now parsed s ≡ (ok result, after)
  pub valid : Invariant.IsValid after
  pub accounted : Accounted s result after

pub feed_parsed_outcome-FedParsed :
    (now : ℕ) (parsed : ParsedSentence) (s : Assembler)
    → Invariant.IsValid s
    → 0 < s.timeout
    → IsParsed parsed
    → FedParsed now parsed s
unfolding feed_parsed_outcome outcome
feed_parsed_outcome-FedParsed now parsed s v pos checked = elim (Option-cases parsed.fragment) [
  | inl none_found ↦ record {
    result = record { status = invalid; group_key = none; sentences = []; discarded_keys = [] };
    after = counted invalid s;
    runs = rw none_found refl;
    valid = counted-IsValid invalid v;
    accounted = record {
      others = λ k ne. refl;
      live = λ k e l. absurd (ground arith);
      gone = λ k e l. absurd (ground arith);
      conflict_discards = λ k e l. absurd (ground arith);
      named = λ k e. absurd (ground arith);
      timeout = refl;
    };
  }
  | inr (f, e) ↦
      let key : AssemblyKey = record {
        source_identity = parsed.source_identity;
        sequential_id = f.sequential_id;
        channel = f.channel;
        declared_total = f.declared_total;
      } in
      let (lo, hi) = checked f e in
      let fed = feed-Feeds now key f.ordinal parsed.sentence_text s v lo hi in
      record {
        result = fed.result;
        after = fed.after;
        runs = rw e fed.runs;
        valid = fed.valid;
        accounted = Ended-Accounted now key f.ordinal parsed.sentence_text s v lo hi pos fed.ended;
      }
]
