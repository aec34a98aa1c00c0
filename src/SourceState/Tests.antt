-- ===== src/SourceState/Tests.antt =====
-- The theorems at inputs that meet their hypotheses.
use aismixer.Prelude.{some, [], codes}
use aismixer.SourceState.{SourceState, touch_s, reset}
use aismixer.SourceState.Associated.{IsValid, touch_s-IsValid, reset-IsValid}

abbrev fresh : SourceState
fresh = record {
  s_cache = record {
    ttl_ns = 100;
    max_entries = 1;
    sweep_every_ns = 1000;
    ops_per_sweep = 50;
    d = [];
    q = [];
    last_sweep_ns = 0;
    ops = 0;
  };
  per_s_state = [];
}

touch_s-IsValid_example : IsValid (touch_s 5 (some (codes "a")) (reset 0 fresh).1)
touch_s-IsValid_example =
    touch_s-IsValid 5 (some (codes "a")) (reset 0 fresh).1 (reset-IsValid 0 fresh)
