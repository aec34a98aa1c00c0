-- ===== src/SecureState/Expiring/Replays.antt =====
-- aismixer_secure.py: repeated admissions to `_BoundedExpiringSet`.
use aismixer.Prelude.{
  ℕ, ◌+◌, ◌<◌, nat_beq, true, false, not, some, List, [], ◌∷◌, ◌≡◌, refl, ◌∙◌, sym, ap, arith, Eq,
  All, ok, Exec, pure, continue, ◌>>=◌, Bool-cases, inl, inr,
}
use aismixer.Prelude.Dict.{lookup, contains}
use aismixer.SecureState.Expiring.{ExpiringRecord, ExpiringSet, Admission, cleanup_expired, accept}
use aismixer.SecureState.Expiring.Sync.{
  IsSynced, Accepted, accept-Accepted, cleanup_expired-Cleaned,
}

-- nothing was evicted to make room
abbrev pub IsRoomy : Admission → Type 0
IsRoomy a = a.capacity_evicted ≡ 0

module _ {K : Type 0} ⦃e : Eq K⦄ where
  -- the admissions of keys at times, one after the other
  unfoldable pub accept_all : List (K × ℕ) → Exec (ExpiringSet K) (List Admission)
  unfolding accept
  accept_all [] = pure []
  accept_all ((key, now) ∷ rest) = do
    admission ← accept key now
    others ← accept_all rest
    pure (admission ∷ others)

  -- at the time of the call, `due` has not come
  abbrev pub IsBefore : ℕ → K × ℕ → Type 0
  IsBefore due (key, now) = now < due

  -- the calls' answers: those for `key` are all refusals
  abbrev pub AllRefused : K → List (K × ℕ) → List Admission → Type 0
  AllRefused key [] [] = Unit
  AllRefused key ((k, now) ∷ calls) (a ∷ answers) =
      (k ≡ key → a.accepted ≡ false) × AllRefused key calls answers
  AllRefused key [] (a ∷ answers) = ⊥
  AllRefused key (call ∷ calls) [] = ⊥

  -- The calls return, and refuse `key` as long as they evict nothing.
  record Refuses (key : K) (calls : List (K × ℕ)) (s : ExpiringSet K) : Type 0 where
    answers : List Admission
    after : ExpiringSet K
    runs : accept_all calls s ≡ (ok answers, after)
    refused : All IsRoomy answers → AllRefused key calls answers

  contains-lookup :
      (key : K) (r : ExpiringRecord K) (now : ℕ) (s : ExpiringSet K)
      → lookup key (cleanup_expired now s).1.live_by_key ≡ some r
      → contains key (cleanup_expired now s).1.live_by_key ≡ true
  contains-lookup key r now s q = rw q refl

  record Returns (calls : List (K × ℕ)) (s : ExpiringSet K) : Type 0 where
    answers : List Admission
    after : ExpiringSet K
    runs : accept_all calls s ≡ (ok answers, after)

  accept_all-Returns : (calls : List (K × ℕ)) (s : ExpiringSet K) → IsSynced s → Returns calls s
  unfolding accept_all
  accept_all-Returns [] s h = record { answers = []; after = s; runs = refl }
  accept_all-Returns ((k, now) ∷ calls) s h =
      let c = accept-Accepted k now s h in
      let i = accept_all-Returns calls c.after c.synced in
      record {
        answers = c.admission ∷ i.answers;
        after = i.after;
        runs = rw c.runs (ap (λ x. continue x.0 (λ y. pure (c.admission ∷ y)) x.1) i.runs);
      }

  still_held :
      (k key : K) (r : ExpiringRecord K) (now : ℕ) (s : ExpiringSet K) (c : Accepted k now s)
      → IsSynced s
      → lookup key s.live_by_key ≡ some r
      → now < r.expires_at
      → k ≡ key
      → c.admission.accepted ≡ false
  still_held k key r now s c h q lt same =
      c.decides
      ∙ ap not (
          contains-lookup k r now s (
            (cleanup_expired-Cleaned now s h).later k r (ap (λ j. lookup j s.live_by_key) same ∙ q)
              lt))

  held-Refuses :
      (key : K) (r : ExpiringRecord K) (calls : List (K × ℕ)) (s : ExpiringSet K)
      → IsSynced s
      → lookup key s.live_by_key ≡ some r
      → All (IsBefore r.expires_at) calls
      → Refuses key calls s
  unfolding accept_all
  held-Refuses key r [] s h q before = record {
    answers = [];
    after = s;
    runs = refl;
    refused = λ roomy. tt;
  }
  held-Refuses key r ((k, now) ∷ calls) s h q before =
      let c = accept-Accepted k now s h in
      elim (Bool-cases (nat_beq c.admission.capacity_evicted 0)) [
        | inl roomy ↦
            let evicted : c.admission.capacity_evicted ≡ 0 = ground arith in
            let i =
              held-Refuses key r calls c.after c.synced (c.later evicted key r q before.0)
                before.1 in
            record {
              answers = c.admission ∷ i.answers;
              after = i.after;
              runs = rw c.runs (ap (λ x. continue x.0 (λ y. pure (c.admission ∷ y)) x.1) i.runs);
              refused =
                  λ w. ((λ same. still_held k key r now s c h q before.0 same), i.refused w.1);
            }
        | inr cramped ↦
            let i = accept_all-Returns calls c.after c.synced in
            record {
              answers = c.admission ∷ i.answers;
              after = i.after;
              runs = rw c.runs (ap (λ x. continue x.0 (λ y. pure (c.admission ∷ y)) x.1) i.runs);
              refused = λ w. absurd (ground (arith, w.0));
            }
      ]

  -- A key that a set in order accepts at some time is refused by every later call, whatever keys the
  -- calls before it asked for, until the time `ttl` later, as long as no call evicted an entry to
  -- make room; and the calls return.
  pub accept_all-refused :
      (key : K) (now : ℕ) (calls : List (K × ℕ)) (s : ExpiringSet K)
      → IsSynced s
      → All (IsBefore (now + s.ttl)) calls
      → (a : Admission) × (answers : List Admission) × (t : ExpiringSet K) × (accept_all
            ((key, now) ∷ calls)
            s
          ≡ (ok (a ∷ answers), t))
        × (a.accepted ≡ true → All IsRoomy answers → AllRefused key calls answers)
  unfolding accept_all
  accept_all-refused key now calls s h before =
      let c = accept-Accepted key now s h in
      elim (Bool-cases c.admission.accepted) [
        | inl accepted ↦
            let (r, q, due) = c.new accepted in
            let i = held-Refuses key r calls c.after c.synced q (rw (sym due) at before) in
            (
              c.admission,
              i.answers,
              i.after,
              rw c.runs (ap (λ x. continue x.0 (λ y. pure (c.admission ∷ y)) x.1) i.runs),
              λ w. i.refused,
            )
        | inr refused ↦
            let i = accept_all-Returns calls c.after c.synced in
            (
              c.admission,
              i.answers,
              i.after,
              rw c.runs (ap (λ x. continue x.0 (λ y. pure (c.admission ∷ y)) x.1) i.runs),
              λ w. absurd (ground (arith, w, refused)),
            )
      ]
