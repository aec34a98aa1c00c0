-- ===== src/Dedup/Tests.antt =====
-- Runs of the deduplicator on small inputs, and the theorems at inputs that meet their hypotheses.
use aismixer.Prelude.{
  ℕ, true, false, none, some, List, [], ◌∷◌, ◌≡◌, refl, arith, text_eq, ok, nat_eq,
}
use aismixer.Dedup.{cache_key_eq, Deduplicator, init}
use aismixer.Dedup.Sync.{IsSynced}
use aismixer.Dedup.Admit.{Admitted, admit-Admitted}
use aismixer.Dedup.Reference.{admit_all, seen_within, window_answers, is_unique-window}

abbrev unlimited : Deduplicator ℕ
unlimited = record {
  ttl = 30;
  max_entries = none;
  cache = [];
  expiry_index = [];
  next_id = 0;
  accepted = 0;
  duplicates = 0;
  expired = 0;
  capacity_evicted = 0;
  resets = 0;
  peak_entries = 0;
}

abbrev calls : List (ℕ × ℕ)
calls = (0, 7) ∷ (10, 7) ∷ (29, 8) ∷ (30, 7) ∷ []

-- A repeat within the window is not unique; when the window is over it is again.
window_run : window_answers 30 [] calls ≡ true ∷ false ∷ true ∷ true ∷ []
unfolding window_answers seen_within
window_run = refl

is_unique-window_example :
    (t : Deduplicator ℕ) × (admit_all calls unlimited ≡ (ok (window_answers 30 [] calls), t))
unfolding init
is_unique-window_example =
    is_unique-window 30 unlimited calls refl
      (omega arith, (omega arith, (omega arith, (omega arith, tt))))

abbrev one_entry : Deduplicator ℕ
one_entry = record unlimited { max_entries = some 1 }

one_entry-IsSynced : IsSynced one_entry
one_entry-IsSynced = record {
  synced = refl;
  distinct = tt;
  limit = λ n q. ground arith;
  peak = omega arith;
}

admit-Admitted_example : Admitted 3 7 one_entry
admit-Admitted_example = admit-Admitted 3 7 one_entry one_entry-IsSynced
