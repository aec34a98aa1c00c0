-- ===== src/SourceState.antt =====
-- core/state/s_cache.py: `SourceState`, the recent sources with a state for each. The map's
-- eviction callback is `_on_s_evict`. What the map's clock returns is the argument `now`.
pub mod Associated
mod Tests
use aismixer.Prelude.{
  ℕ, Bool, true, false, Option, none, some, List, [], ◌∷◌, Text, text_eq, if◌then◌else◌,
}
use aismixer.Prelude.Dict.{Dict, contains, insert, remove}
use aismixer.TtlMap.{TtlMap, touch, clear}

-- the code stores an empty `dict` for each source
abbrev pub PerSource : Type 0
PerSource = Dict Text Text

pub record SourceState : Type 0 where
  pub s_cache : TtlMap Text
  pub per_s_state : Dict Text PerSource

-- `_on_s_evict`, for the keys in the order of the calls
unfoldable pub on_s_evict : List Text → Dict Text PerSource → Dict Text PerSource
on_s_evict [] states = states
on_s_evict (key ∷ rest) states = on_s_evict rest (remove key states)

-- the branch of `touch_s` for a value that is not empty
unfoldable pub touch_value : ℕ → Text → SourceState → SourceState
unfolding on_s_evict
touch_value now s_value s =
    let (evicted, cache) = touch s_value now s.s_cache in
    let states = on_s_evict evicted s.per_s_state in
    record {
      s_cache = cache;
      per_s_state = if contains s_value states then states else insert s_value [] states;
    }

unfoldable pub touch_s : ℕ → Option Text → SourceState → SourceState
unfolding touch_value
touch_s now none s = s
touch_s now (some []) s = s
touch_s now (some (c ∷ value)) s = touch_value now (c ∷ value) s

unfoldable pub reset : ℕ → SourceState → ℕ × SourceState
reset now s =
    let (discarded, evicted, cache) = clear now s.s_cache in
    (discarded, record { s_cache = cache; per_s_state = [] })
