-- ===== src/Processor/Formatted.antt =====
-- core/python_data_plane.py: the loop of `_process_impl` over the lines that are emitted.
use aismixer.Prelude.{
  ℕ, Bool, true, Option, some, List, [], ◌∷◌, ◌≡◌, ◌⊎◌, inl, inr, refl, arith, Text, ok, Exec,
  Option-cases, nat_eq, text_eq, ◌++◌, suc, nat_beq, is_some, Result, err, ◌>>=◌, pure, Error,
  value_error,
}
use aismixer.Assembler.{key_eq}
use aismixer.Dedup.{cache_key_eq}
use aismixer.OutputLines.{Timestamp, wrap_with_meta, build_output_bytes}
use aismixer.SourcePolicy.{choose_s_value_from_candidates}
use aismixer.SourceState.{SourceState}
use aismixer.SourceState.Associated as Associated
use aismixer.SourceState.Associated.{touch_s-IsValid}
use aismixer.Processor.{
  lines_eq, ProcessingConfig, TextLibrary, FrameSource, ProcessorOutput, source_name, g_triplet_of,
  emit_line, emit_lines, Readings, Emission,
}

pub Result-cases :
    {A : Type 0} (r : Result A) → ((a : A) × (r ≡ ok a)) ⊎ ((e : Error) × (r ≡ err e))
Result-cases (ok a) = inl (a, refl)
Result-cases (err e) = inr (e, refl)

-- A run of the loop over the lines: the source state stays valid, and only a line that cannot be
-- encoded ends it.
pub record Formatted (lib : TextLibrary) {A : Type 0} (run : Exec SourceState A) (s : SourceState)
    : Type 0 where
  pub result : Result A
  pub after : SourceState
  pub runs : run s ≡ (result, after)
  pub valid : Associated.IsValid after
  pub raises : (e : Error) → result ≡ err e → e ≡ value_error
  pub encodable :
      ((v : Text) → is_some (lib.encode v) ≡ true) → (outputs : A) × (result ≡ ok outputs)

module _ (lib : TextLibrary) {A : Type 0} where
  pure-Formatted :
      (a : A) (s : SourceState) → Associated.IsValid s → Formatted lib {A = A} (pure a) s
  pure-Formatted a s v = record {
    result = ok a;
    after = s;
    runs = refl;
    valid = v;
    raises = λ x q. absurd (ground arith);
    encodable = λ all. (a, refl);
  }

module _ (lib : TextLibrary) {A B : Type 0} where
  bind-Formatted :
      (m : Exec SourceState A) (k : A → Exec SourceState B) (s : SourceState)
      → Formatted lib m s
      → ((a : A) (t : SourceState) → Associated.IsValid t → Formatted lib (k a) t)
      → Formatted lib (m >>= k) s
  bind-Formatted m k s f g = elim (Result-cases f.result) [
    | inl (a, first) ↦
        let h = g a f.after f.valid in
        record {
          result = h.result;
          after = h.after;
          runs = rw (f.runs, first) h.runs;
          valid = h.valid;
          raises = h.raises;
          encodable = h.encodable;
        }
    | inr (x, failed) ↦ record {
      result = err x;
      after = f.after;
      runs = rw (f.runs, failed) refl;
      valid = f.valid;
      raises = λ y q. ground (arith, f.raises x failed);
      encodable = λ all. let (o, q) = f.encodable all in absurd (ground arith);
    }
  ]

-- Building a line fails by a ValueError alone, and not if every text can be encoded.
build_output_bytes_lem :
    (lib : TextLibrary) (line s_value : Text) (timestamp : Option Timestamp) (is_first : Bool)
    (g_triplet : Option Text) (clock : ℕ)
    → ((x : Error)
        → build_output_bytes lib.encode line s_value timestamp is_first g_triplet clock ≡ err x
        → x ≡ value_error)
      × (((v : Text) → is_some (lib.encode v) ≡ true)
          → (message : Text) × (build_output_bytes lib.encode line s_value timestamp is_first
                g_triplet clock
              ≡ ok message))
unfolding build_output_bytes
build_output_bytes_lem lib line s_value timestamp is_first g_triplet clock =
    let v = wrap_with_meta line s_value timestamp is_first g_triplet clock ++ 13 ∷ 10 ∷ [] in
    elim (Option-cases (lib.encode v)) [
      | inl bad ↦ ((λ x q. ground arith), λ all. absurd (ground (arith, all v)))
      | inr (message, encoded) ↦ ((λ x q. absurd (ground arith)), λ all. (message, ground arith))
    ]

module _ (lib : TextLibrary) (config : ProcessingConfig) (frame : FrameSource) where
  emit_line-Formatted :
      (readings : Readings) (e : Emission) (index : ℕ) (line : Text) (s : SourceState)
      → Associated.IsValid s
      → Formatted lib (emit_line lib config frame readings e index line) s
  unfolding emit_line
  emit_line-Formatted readings e index line s v =
      let s_value =
        choose_s_value_from_candidates lib.is_space config.station_id
          (source_name frame.alias_for_s e.source) frame.leading_s frame.remote_ip in
      let (raises, encodable) =
        build_output_bytes_lem lib line s_value e.timestamp (nat_beq index 0) (g_triplet_of e index)
          (readings.wall_now index) in
      record {
        result = (emit_line lib config frame readings e index line s).0;
        after = (emit_line lib config frame readings e index line s).1;
        runs = refl;
        valid = touch_s-IsValid (readings.source_now index) (some s_value) s v;
        raises = raises;
        encodable = encodable;
      }

  pub emit_lines-Formatted :
      (readings : Readings) (e : Emission) (index : ℕ) (lines : List Text) (s : SourceState)
      → Associated.IsValid s
      → Formatted lib (emit_lines lib config frame readings e index lines) s
  unfolding emit_lines
  emit_lines-Formatted readings e index [] s v = pure-Formatted lib [] s v
  emit_lines-Formatted readings e index (line ∷ rest) s v =
      let output : Text → ProcessorOutput =
        λ message. record { message = message; target_ids = e.target_ids } in
      bind-Formatted lib (emit_line lib config frame readings e index line)
        (λ message. emit_lines lib config frame readings e (suc index) rest >>= λ others.
          pure (output message ∷ others))
        s (emit_line-Formatted readings e index line s v)
        (λ message t w.
          bind-Formatted lib (emit_lines lib config frame readings e (suc index) rest)
            (λ others. pure (output message ∷ others)) t
            (emit_lines-Formatted readings e (suc index) rest t w)
            (λ others u x. pure-Formatted lib (output message ∷ others) u x))
