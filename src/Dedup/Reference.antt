-- ===== src/Dedup/Reference.antt =====
-- dedup.py: `Deduplicator` without a capacity limit beside the plain definition of a sliding window.
use mathlib.Core.Path.{subst}
use mathlib.Core.List.{append_assoc}
use mathlib.Core.Option.{some-injective}
use aismixer.Prelude.{
  ℕ, ◌+◌, ◌≤◌, ◌<◌, Bool, false, not, ◌&&◌, ◌||◌, none, some, List, [], ◌∷◌, ◌++◌, ◌≡◌, refl, sym,
  ◌∙◌, ap, arith, ltb, Eq, ◌==◌, if◌then◌else◌, ok, Exec, pure, ◌>>=◌, Bool-cases, inl, inr,
}
use aismixer.Prelude.Dict.{lookup, contains}
use aismixer.Dedup.{Entry, Deduplicator, init, cleanup_expired, admit}
use aismixer.Dedup.Sync.{
  indexed, IsSynced, unexpired, cleanup_expired_lem, cleanup_expired-IsSynced,
}
use aismixer.Dedup.Admit.{Admitted, admit-Admitted}

module _ {K : Type 0} ⦃e : Eq K⦄ where
  -- the key was accepted, less than `ttl` before `now`
  unfoldable pub seen_within : ℕ → ℕ → K → List (ℕ × K) → Bool
  seen_within ttl now key [] = false
  seen_within ttl now key ((at, k) ∷ history) =
      k == key && ltb now (at + ttl) || seen_within ttl now key history

  -- The answers for a list of calls, beside the history of the accepted ones.
  unfoldable pub window_answers : ℕ → List (ℕ × K) → List (ℕ × K) → List Bool
  window_answers ttl history [] = []
  window_answers ttl history ((now, key) ∷ calls) =
      let seen = seen_within ttl now key history in
      not seen ∷ window_answers ttl (if seen then history else history ++ (now, key) ∷ []) calls

  -- The calls of `is_unique`, in order.
  unfoldable pub admit_all : List (ℕ × K) → Exec (Deduplicator K) (List Bool)
  admit_all [] = pure []
  admit_all ((now, key) ∷ calls) = do
    unique ← admit now key
    rest ← admit_all calls
    pure (unique ∷ rest)

  -- The clock does not go back.
  abbrev pub Monotone : ℕ → List (ℕ × K) → Type 0
  Monotone clock [] = Unit
  Monotone clock ((now, key) ∷ calls) = (clock ≤ now) × Monotone now calls

  abbrev pub stamps : List (Entry K) → List (ℕ × K)
  stamps [] = []
  stamps (x ∷ xs) = (x.inserted_at, x.key) ∷ stamps xs

  abbrev pub AllExpired : ℕ → ℕ → List (ℕ × K) → Type 0
  AllExpired ttl clock [] = Unit
  AllExpired ttl clock ((at, k) ∷ h) = (at + ttl ≤ clock) × AllExpired ttl clock h

  abbrev AllLive : ℕ → ℕ → List (Entry K) → Type 0
  AllLive ttl now [] = Unit
  AllLive ttl now (x ∷ xs) = (now < x.inserted_at + ttl) × AllLive ttl now xs

  -- entries in the order of their times, between two bounds
  abbrev pub Ordered : ℕ → ℕ → List (Entry K) → Type 0
  Ordered lo hi [] = lo ≤ hi
  Ordered lo hi (x ∷ xs) = (lo ≤ x.inserted_at) × Ordered x.inserted_at hi xs

  Ordered-bound : (lo hi : ℕ) (xs : List (Entry K)) → Ordered lo hi xs → lo ≤ hi
  Ordered-bound lo hi [] o = o
  Ordered-bound lo hi (x ∷ xs) o = omega (arith, Ordered-bound x.inserted_at hi xs o.1)

  Ordered-widen :
      (lo hi lo' hi' : ℕ) (xs : List (Entry K))
      → lo' ≤ lo
      → hi ≤ hi'
      → Ordered lo hi xs
      → Ordered lo' hi' xs
  Ordered-widen lo hi lo' hi' [] l h o = omega arith
  Ordered-widen lo hi lo' hi' (x ∷ xs) l h o =
      (omega arith, Ordered-widen x.inserted_at hi x.inserted_at hi' xs (omega arith) h o.1)

  Ordered-append :
      (lo hi : ℕ) (xs : List (Entry K)) (y : Entry K)
      → Ordered lo hi xs
      → hi ≤ y.inserted_at
      → Ordered lo y.inserted_at (xs ++ y ∷ [])
  Ordered-append lo hi [] y o h = (omega arith, omega arith)
  Ordered-append lo hi (x ∷ xs) y o h = (o.0, Ordered-append x.inserted_at hi xs y o.1 h)

  AllLive-Ordered :
      (ttl now lo hi : ℕ) (xs : List (Entry K))
      → now < lo + ttl
      → Ordered lo hi xs
      → AllLive ttl now xs
  AllLive-Ordered ttl now lo hi [] l o = tt
  AllLive-Ordered ttl now lo hi (x ∷ xs) l o =
      (omega arith, AllLive-Ordered ttl now x.inserted_at hi xs (omega arith) o.1)

  -- After the cleanup of an ordered index, all that is left is live and still ordered.
  unexpired-AllLive :
      (ttl now lo hi : ℕ) (xs : List (Entry K))
      → Ordered lo hi xs
      → AllLive ttl now (unexpired ttl now xs) × Ordered lo hi (unexpired ttl now xs)
  unfolding unexpired
  unexpired-AllLive ttl now lo hi [] o = (tt, o)
  unexpired-AllLive ttl now lo hi (x ∷ xs) o = elim (Bool-cases (ltb now (x.inserted_at + ttl))) [
    | inl live ↦
        rw live ((ground arith, AllLive-Ordered ttl now x.inserted_at hi xs (ground arith) o.1), o)
    | inr old ↦
        let (l, p) = unexpired-AllLive ttl now x.inserted_at hi xs o.1 in
        rw old (l, Ordered-widen x.inserted_at hi lo hi _ o.0 (omega arith) p)
  ]

  -- What the cleanup dropped is expired.
  record Split (ttl now : ℕ) (xs : List (Entry K)) : Type 0 where
    gone : List (ℕ × K)
    joins : stamps xs ≡ gone ++ stamps (unexpired ttl now xs)
    expired : AllExpired ttl now gone

  unexpired-Split : (ttl now : ℕ) (xs : List (Entry K)) → Split ttl now xs
  unfolding unexpired
  unexpired-Split ttl now [] = record { gone = []; joins = refl; expired = tt }
  unexpired-Split ttl now (x ∷ xs) = elim (Bool-cases (ltb now (x.inserted_at + ttl))) [
    | inl live ↦ record { gone = []; joins = rw live refl; expired = tt }
    | inr old ↦
        let r = unexpired-Split ttl now xs in
        record {
          gone = (x.inserted_at, x.key) ∷ r.gone;
          joins = rw (old, r.joins) refl;
          expired = (ground arith, r.expired);
        }
  ]

  AllExpired-append :
      (ttl clock now : ℕ) (h g : List (ℕ × K))
      → clock ≤ now
      → AllExpired ttl clock h
      → AllExpired ttl now g
      → AllExpired ttl now (h ++ g)
  AllExpired-append ttl clock now [] g le eh eg = eg
  AllExpired-append ttl clock now (x ∷ h) g le eh eg =
      (omega arith, AllExpired-append ttl clock now h g le eh.1 eg)

  seen-AllExpired :
      (ttl now : ℕ) (key : K) (h g : List (ℕ × K))
      → AllExpired ttl now h
      → seen_within ttl now key (h ++ g) ≡ seen_within ttl now key g
  unfolding seen_within
  seen-AllExpired ttl now key [] g x = refl
  seen-AllExpired ttl now key (y ∷ h) g x = ground (arith, seen-AllExpired ttl now key h g)

  seen-AllLive :
      (ttl now : ℕ) (key : K) (xs : List (Entry K))
      → AllLive ttl now xs
      → seen_within ttl now key (stamps xs) ≡ contains key (indexed xs)
  unfolding seen_within lookup
  seen-AllLive ttl now key [] l = refl
  seen-AllLive ttl now key (x ∷ xs) l = ground (arith, seen-AllLive ttl now key xs)

  stamps-append :
      (xs : List (Entry K)) (y : Entry K)
      → stamps (xs ++ y ∷ []) ≡ stamps xs ++ (y.inserted_at, y.key) ∷ []
  stamps-append [] y = refl
  stamps-append (x ∷ xs) y = rw (stamps-append xs y)

  -- The history is what was dropped, all of it expired, and then the index.
  pub record Tracks (ttl clock : ℕ) (history : List (ℕ × K)) (s : Deduplicator K) : Type 0 where
    pub synced : IsSynced s
    pub same_ttl : s.ttl ≡ ttl
    pub unlimited : s.max_entries ≡ none
    pub old : List (ℕ × K)
    pub split : history ≡ old ++ stamps s.expiry_index
    pub expired : AllExpired ttl clock old
    pub ordered : Ordered 0 clock s.expiry_index

  module _ (ttl clock now : ℕ) (key : K) (history : List (ℕ × K)) (s : Deduplicator K)
      (t : Tracks ttl clock history s) (later : clock ≤ now) where
    abbrev left : List (Entry K)
    left = unexpired ttl now s.expiry_index

    cleaned_index : (cleanup_expired now s).expiry_index ≡ left
    cleaned_index =
        rw (cleanup_expired_lem now s t.synced)
          (ap (λ n. unexpired n now s.expiry_index) t.same_ttl)

    cleaned_cache : (cleanup_expired now s).cache ≡ indexed left
    cleaned_cache = (cleanup_expired-IsSynced now s t.synced).synced ∙ ap indexed cleaned_index

    history-left : (gone : List (ℕ × K)) × (history ≡ gone ++ stamps left) × AllExpired ttl now gone
    history-left =
        let r = unexpired-Split ttl now s.expiry_index in
        (
          t.old ++ r.gone,
          t.split ∙ (ap (λ h. t.old ++ h) r.joins ∙ sym (append_assoc t.old r.gone (stamps left))),
          AllExpired-append ttl clock now t.old r.gone later t.expired r.expired,
        )

    -- The cache holds the key exactly if the history saw it within the window.
    seen-cached : seen_within ttl now key history ≡ contains key (cleanup_expired now s).cache
    seen-cached =
        let (gone, joins, expired) = history-left in
        rw (joins, cleaned_cache)
          (seen-AllExpired ttl now key gone (stamps left) expired
            ∙ seen-AllLive ttl now key left
                (unexpired-AllLive ttl now 0 clock s.expiry_index t.ordered).0)

    -- one call: the answer, and the relation for the next call
    admit-Tracks :
        (a : Admitted now key s)
        → (a.unique ≡ not (seen_within ttl now key history))
          × Tracks ttl now
              (if seen_within ttl now key history then history else history ++ (now, key) ∷ [])
              a.after
    admit-Tracks a =
        let (gone, joins, expired) = history-left in
        let ord = (unexpired-AllLive ttl now 0 clock s.expiry_index t.ordered).1 in
        let answer : a.unique ≡ not (seen_within ttl now key history) =
          a.decides ∙ ap not (sym seen-cached) in
        (
          answer,
          elim (Bool-cases (seen_within ttl now key history)) [
            | inl seen ↦
                let index : a.after.expiry_index ≡ left =
                  a.index t.unlimited ∙ (rw (answer, seen) cleaned_index) in
                rw seen (record {
                  synced = a.synced;
                  same_ttl = a.ttl ∙ t.same_ttl;
                  unlimited = a.max_entries ∙ t.unlimited;
                  old = gone;
                  split = joins ∙ ap (λ xs. gone ++ stamps xs) (sym index);
                  expired = expired;
                  ordered = rw index (Ordered-widen 0 clock 0 now left (omega arith) later ord);
                })
            | inr new ↦
                let index : a.after.expiry_index ≡ left ++ a.entry ∷ [] =
                  a.index t.unlimited
                  ∙ (rw (answer, new)
                      (ap (λ (xs : List (Entry K)). xs ++ a.entry ∷ []) cleaned_index)) in
                let stamped : stamps (left ++ a.entry ∷ []) ≡ stamps left ++ (now, key) ∷ [] =
                  rw (stamps-append, a.entry_at, a.entry_key) refl in
                rw new (record {
                  synced = a.synced;
                  same_ttl = a.ttl ∙ t.same_ttl;
                  unlimited = a.max_entries ∙ t.unlimited;
                  old = gone;
                  split =
                      ap (λ (h : List (ℕ × K)). h ++ (now, key) ∷ []) joins
                      ∙ (append_assoc gone (stamps left) ((now, key) ∷ [])
                          ∙ ap (λ h. gone ++ h) (sym (ap stamps index ∙ stamped)));
                  expired = expired;
                  ordered = rw index (
                      subst (λ n. Ordered 0 n (left ++ a.entry ∷ [])) a.entry_at
                        (Ordered-append 0 clock left a.entry ord (rw a.entry_at later)));
                })
          ],
        )

  -- Whatever calls are made, with a clock that does not go back and no capacity limit,
  -- `is_unique` answers as the sliding window does, and never raises.
  admit_all-window_answers :
      (calls : List (ℕ × K)) (ttl clock : ℕ) (history : List (ℕ × K)) (s : Deduplicator K)
      → Tracks ttl clock history s
      → Monotone clock calls
      → (t : Deduplicator K) × (admit_all calls s ≡ (ok (window_answers ttl history calls), t))
  unfolding admit_all window_answers
  admit_all-window_answers [] ttl clock history s t m = (s, refl)
  admit_all-window_answers ((now, key) ∷ calls) ttl clock history s t m =
      let a = admit-Admitted now key s t.synced in
      let (answer, tracks) = admit-Tracks ttl clock now key history s t m.0 a in
      let (u, rest) = admit_all-window_answers calls ttl now _ a.after tracks m.1 in
      (u, rw (a.runs, rest, answer) refl)

  init-Tracks : (ttl : ℕ) (s : Deduplicator K) → init ttl none ≡ some s → Tracks ttl 0 [] s
  unfolding init
  init-Tracks ttl s h = subst (Tracks ttl 0 []) (some-injective _ s h) (record {
    synced = record {
      synced = refl;
      distinct = tt;
      limit = λ n r. absurd (ground arith);
      peak = omega arith;
    };
    same_ttl = refl;
    unlimited = refl;
    old = [];
    split = refl;
    expired = tt;
    ordered = omega arith;
  })

  -- A new `Deduplicator` without a capacity limit, called with any messages at times that do not
  -- go back, answers each call exactly as the sliding window does: unique if and only if the
  -- message was not accepted less than `ttl` ticks before. No call raises.
  pub is_unique-window :
      (ttl : ℕ) (s : Deduplicator K) (calls : List (ℕ × K))
      → init ttl none ≡ some s
      → Monotone 0 calls
      → (t : Deduplicator K) × (admit_all calls s ≡ (ok (window_answers ttl [] calls), t))
  is_unique-window ttl s calls h m =
      admit_all-window_answers calls ttl 0 [] s (init-Tracks ttl s h) m
