-- ===== src/Processor/Counters.antt =====
-- core/python_data_plane.py: `process`, `reset` and `metrics_snapshot`, which count the calls; a
-- call of `process` is counted whether `_process_impl` returns or raises.
use aismixer.Prelude.{
  ℕ, ◌+◌, ◌-◌, ◌≤◌, List, ◌≡◌, refl, arith, nat_beq, if◌then◌else◌, length, Result, ok, err,
  Bool-cases, inl, inr,
}
use aismixer.Processor.{
  TextLibrary, ProcessingConfig, FrameSource, Processor, DeduplicationMode, Readings,
  ParsedSentence, ProcessorOutput, ResetReport, process_sentences,
}
use aismixer.Processor as Processor

-- What `metrics_snapshot` returns is a copy of the counters.
pub record Counters : Type 0 where
  pub process_calls : ℕ
  pub process_completed : ℕ
  pub process_failed : ℕ
  pub process_in_flight : ℕ
  pub outputless_calls : ℕ
  pub output_batches : ℕ
  pub output_messages : ℕ
  pub reset_calls : ℕ
  pub reset_completed : ℕ
  pub reset_failed : ℕ
  pub reset_in_flight : ℕ

pub record Metered : Type 0 where
  pub processor : Processor
  pub counters : Counters

unfoldable pub count_outputs : ℕ → Counters → Counters
count_outputs n c =
    if nat_beq n 0
    then record c { outputless_calls = c.outputless_calls + 1 }
    else record c { output_batches = c.output_batches + 1; output_messages = c.output_messages + n }

unfoldable pub settle : Result (List ProcessorOutput) → Counters → Counters
unfolding count_outputs
settle (ok batch) c =
    let d =
      count_outputs (length batch) (record c { process_completed = c.process_completed + 1 }) in
    record d { process_in_flight = d.process_in_flight - 1 }
settle (err e) c = record c {
  process_failed = c.process_failed + 1;
  process_in_flight = c.process_in_flight - 1;
}

unfoldable pub process :
    TextLibrary
    → ProcessingConfig
    → FrameSource
    → DeduplicationMode
    → List ℕ
    → List (Readings × ParsedSentence)
    → Metered
    → Result (List ProcessorOutput) × Metered
unfolding settle
process lib config frame mode targets sentences s =
    let c = s.counters in
    let started : Counters = record c {
      process_calls = c.process_calls + 1;
      process_in_flight = c.process_in_flight + 1;
    } in
    let (r, t) = process_sentences lib config frame mode targets sentences s.processor in
    (r, record { processor = t; counters = settle r started })

unfoldable pub metered_reset : ℕ → Metered → ResetReport × Metered
metered_reset now s =
    let c = s.counters in
    let (report, t) = Processor.reset now s.processor in
    (
      report,
      record {
        processor = t;
        counters = record c {
          reset_calls = c.reset_calls + 1;
          reset_completed = c.reset_completed + 1;
          reset_in_flight = c.reset_in_flight + 1 - 1;
        };
      },
    )

-- Between two calls none is in flight, and every call is counted in one way.
pub record IsBalanced (c : Counters) : Type 0 where
  pub idle : c.process_in_flight ≡ 0
  pub calls : c.process_calls ≡ c.process_completed + c.process_failed
  pub completed : c.process_completed ≡ c.outputless_calls + c.output_batches
  pub messages : c.output_batches ≤ c.output_messages
  pub reset_idle : c.reset_in_flight ≡ 0
  pub reset_all : c.reset_calls ≡ c.reset_completed + c.reset_failed

-- From balanced counters, `process` leaves balanced counters whether it returns or raises: no call
-- is in flight, every call is completed or failed, every completed call had output or had none,
-- and each call with output had at least one message; and it counts one more call.
pub process-IsBalanced :
    (lib : TextLibrary) (config : ProcessingConfig) (frame : FrameSource) (mode : DeduplicationMode)
    (targets : List ℕ) (sentences : List (Readings × ParsedSentence)) (s : Metered)
    → IsBalanced s.counters
    → IsBalanced (process lib config frame mode targets sentences s).1.counters
      × ((process lib config frame mode targets sentences s).1.counters.process_calls
          ≡ s.counters.process_calls + 1)
unfolding process
process-IsBalanced lib config frame mode targets sentences s v =
    settled (process_sentences lib config frame mode targets sentences s.processor).0
  where
    started : Counters
    started = record s.counters {
      process_calls = s.counters.process_calls + 1;
      process_in_flight = s.counters.process_in_flight + 1;
    }

    settled :
        (r : Result (List ProcessorOutput))
        → IsBalanced (settle r started)
          × ((settle r started).process_calls ≡ s.counters.process_calls + 1)
    settled (err e) = (
      record {
        idle = ground (arith, v.idle);
        calls = ground (arith, v.calls);
        completed = v.completed;
        messages = v.messages;
        reset_idle = v.reset_idle;
        reset_all = v.reset_all;
      },
      refl,
    )
    settled (ok batch) = elim (Bool-cases (nat_beq (length batch) 0)) [
      | inl nothing ↦ rw nothing (
        record {
          idle = ground (arith, v.idle);
          calls = ground (arith, v.calls);
          completed = ground (arith, v.completed);
          messages = v.messages;
          reset_idle = v.reset_idle;
          reset_all = v.reset_all;
        },
        refl,
      )
      | inr some_lines ↦ rw some_lines (
        record {
          idle = ground (arith, v.idle);
          calls = ground (arith, v.calls);
          completed = ground (arith, v.completed);
          messages = ground (arith, v.messages);
          reset_idle = v.reset_idle;
          reset_all = v.reset_all;
        },
        refl,
      )
    ]
