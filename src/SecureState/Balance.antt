-- ===== src/SecureState/Balance.antt =====
-- aismixer_secure.py: the invariant of `SecureState`, and the steps that its operations are made of.
use mathlib.Core.Path.{subst}
use aismixer.Prelude.{
  ℕ, suc, ◌+◌, ◌≤◌, false, some, List, [], ◌∷◌, ◌≡◌, refl, ◌∙◌, ap, arith, Text, text_eq, ltb,
  length, ok, Exec, Bool-cases, inl, inr,
}
use aismixer.Prelude.Dict.{Dict, lookup, remove}
use aismixer.SecureState.{
  SecureSession, PendingSession, SessionCounters, PendingCounters, NonceCounters, ReplayCounters,
  SecureState,
}
use aismixer.SecureState.Expiring.{ExpiringSet, size, discard_all}
use aismixer.SecureState.Expiring.Sync.{IsSynced}
use aismixer.SecureState.Tables.{
  IsTable, IsTable-remove, length-remove_present, remove_head, lookup_head, total, total-remove,
}
use aismixer.SecureState.Sessions.{
  Reason, expired_reason, capacity_reason, replaced_reason, count_session_removal,
  count_pending_removal, discard_nonces, without_session, remove_session, without_pending,
  remove_pending_session, expire_sessions, cleanup_expired_sessions, expire_pending,
  cleanup_expired_pending_sessions,
}

-- `n` sessions in the table: every other one that was created has left it in a counted way.
pub record SessionsCounted (n : ℕ) (c : SessionCounters) : Type 0 where
  pub created : c.created ≡ n + (c.replaced + (c.expired + c.capacity_evicted))
  pub peak : n ≤ c.peak

pub record PendingCounted (n : ℕ) (c : PendingCounters) : Type 0 where
  pub created : c.created ≡ n + (c.replaced + (c.promoted + (c.expired + c.capacity_evicted)))
  pub peak : n ≤ c.peak

-- `n` nonces are kept, and every other one that was accepted went in a counted way.
pub record NoncesCounted (n : ℕ) (c : NonceCounters) : Type 0 where
  pub current : c.current ≡ n
  pub accepted : c.accepted ≡ n + (c.expired + (c.capacity_evicted + c.session_discarded))
  pub peak : n ≤ c.peak

pub record ReplaysCounted (n : ℕ) (c : ReplayCounters) : Type 0 where
  pub accepted : c.accepted ≡ n + (c.expired + c.capacity_evicted)
  pub peak : n ≤ c.peak

removal-SessionsCounted :
    (reason : Reason) (n : ℕ) (c : SessionCounters)
    → SessionsCounted (suc n) c
    → SessionsCounted n (count_session_removal reason c)
unfolding count_session_removal
removal-SessionsCounted expired_reason n c h = record {
  created = omega (arith, h.created);
  peak = omega (arith, h.peak);
}
removal-SessionsCounted capacity_reason n c h = record {
  created = omega (arith, h.created);
  peak = omega (arith, h.peak);
}
removal-SessionsCounted replaced_reason n c h = record {
  created = omega (arith, h.created);
  peak = omega (arith, h.peak);
}

removal-PendingCounted :
    (reason : Reason) (n : ℕ) (c : PendingCounters)
    → PendingCounted (suc n) c
    → PendingCounted n (count_pending_removal reason c)
unfolding count_pending_removal
removal-PendingCounted expired_reason n c h = record {
  created = omega (arith, h.created);
  peak = omega (arith, h.peak);
}
removal-PendingCounted capacity_reason n c h = record {
  created = omega (arith, h.created);
  peak = omega (arith, h.peak);
}
removal-PendingCounted replaced_reason n c h = record {
  created = omega (arith, h.created);
  peak = omega (arith, h.peak);
}

discard-NoncesCounted :
    (n m : ℕ) (nonces : ExpiringSet Text) (c : NonceCounters)
    → NoncesCounted n c
    → n ≡ size nonces + m
    → NoncesCounted m (discard_nonces nonces c)
unfolding discard_all
discard-NoncesCounted n m nonces c h e = record {
  current = omega (arith, h.current, e);
  accepted = omega (arith, h.accepted, e);
  peak = omega (arith, h.peak, e);
}

module _ {C : Type 0} (Known : Text → Type 0) where
  -- the nonces of the session are in order, and its station is one that is known
  abbrev pub GoodSession : SecureSession C → Type 0
  GoodSession v = IsSynced v.seen_data_nonces × Known v.station_id

  abbrev pub GoodPending : PendingSession C → Type 0
  GoodPending v = IsSynced v.seen_data_nonces × Known v.station_id

  abbrev pub session_nonces : SecureSession C → ℕ
  session_nonces v = size v.seen_data_nonces

  abbrev pub pending_nonces : PendingSession C → ℕ
  pending_nonces v = size v.seen_data_nonces

  -- The invariant, while `k` nonces are on their way from a pending session to a session.
  pub record HoldsWith (k : ℕ) (s : SecureState C) : Type 0 where
    pub sessions : IsTable GoodSession s.limits.max_sessions s.sessions
    pub pending : IsTable GoodPending s.limits.max_pending_sessions s.pending_sessions
    pub nonce_room : 1 ≤ s.limits.data_nonce_max_per_session
    pub replays : IsSynced s.handshake_replays
    pub sessions_counted : SessionsCounted (length s.sessions) s.session_counters
    pub pending_counted : PendingCounted (length s.pending_sessions) s.pending_counters
    pub replays_counted : ReplaysCounted (size s.handshake_replays) s.replay_counters
    pub nonces_counted :
        NoncesCounted
          (total session_nonces s.sessions + (total pending_nonces s.pending_sessions + k))
          s.nonce_counters

  -- A run that returns and keeps the invariant.
  pub record Keeps {A : Type 0} (k : ℕ) (run : Exec (SecureState C) A) (s : SecureState C)
      : Type 0 where
    pub result : A
    pub after : SecureState C
    pub runs : run s ≡ (ok result, after)
    pub holds : HoldsWith k after
    pub limits : after.limits ≡ s.limits

  pub without_session-HoldsWith :
      {k : ℕ} (a : Text) (reason : Reason) (v : SecureSession C) (s : SecureState C)
      → HoldsWith k s
      → lookup a s.sessions ≡ some v
      → HoldsWith k (without_session a reason v s)
  without_session-HoldsWith {k} a reason v s h q = record {
    sessions = IsTable-remove GoodSession s.limits.max_sessions s.sessions a h.sessions;
    pending = h.pending;
    nonce_room = h.nonce_room;
    replays = h.replays;
    sessions_counted =
        removal-SessionsCounted reason (length (remove a s.sessions)) s.session_counters (
          subst (λ n. SessionsCounted n s.session_counters) (length-remove_present a v s.sessions q)
            h.sessions_counted);
    pending_counted = h.pending_counted;
    replays_counted = h.replays_counted;
    nonces_counted =
        discard-NoncesCounted
          (total session_nonces s.sessions + (total pending_nonces s.pending_sessions + k)) _
          v.seen_data_nonces s.nonce_counters h.nonces_counted
          (omega (arith, total-remove session_nonces a v s.sessions q));
  }

  pub without_pending-HoldsWith :
      {k : ℕ} (a : Text) (reason : Reason) (v : PendingSession C) (s : SecureState C)
      → HoldsWith k s
      → lookup a s.pending_sessions ≡ some v
      → HoldsWith k (without_pending a reason v s)
  without_pending-HoldsWith {k} a reason v s h q = record {
    sessions = h.sessions;
    pending =
        IsTable-remove GoodPending s.limits.max_pending_sessions s.pending_sessions a h.pending;
    nonce_room = h.nonce_room;
    replays = h.replays;
    sessions_counted = h.sessions_counted;
    pending_counted =
        removal-PendingCounted reason (length (remove a s.pending_sessions)) s.pending_counters (
          subst (λ n. PendingCounted n s.pending_counters)
            (length-remove_present a v s.pending_sessions q) h.pending_counted);
    replays_counted = h.replays_counted;
    nonces_counted =
        discard-NoncesCounted
          (total session_nonces s.sessions + (total pending_nonces s.pending_sessions + k)) _
          v.seen_data_nonces s.nonce_counters h.nonces_counted
          (omega (arith, total-remove pending_nonces a v s.pending_sessions q));
  }

  expire_sessions_step :
      (now : ℕ) (a : Text) (v : SecureSession C) (d : Dict Text (SecureSession C))
      (s : SecureState C) {r : List Text} {t : SecureState C}
      → lookup a s.sessions ≡ some v
      → ltb now (v.last_seen + s.limits.session_ttl) ≡ false
      → expire_sessions now d (without_session a expired_reason v s) ≡ (ok r, t)
      → expire_sessions now ((a, v) ∷ d) s ≡ (ok (a ∷ r), t)
  unfolding expire_sessions remove_session
  expire_sessions_step now a v d s q due e = ground (arith, q, due, e)

  pub expire_pending_step :
      (now : ℕ) (a : Text) (v : PendingSession C) (d : Dict Text (PendingSession C))
      (s : SecureState C) {r : List Text} {t : SecureState C}
      → lookup a s.pending_sessions ≡ some v
      → ltb now (v.created_at + s.limits.pending_session_ttl) ≡ false
      → expire_pending now d (without_pending a expired_reason v s) ≡ (ok r, t)
      → expire_pending now ((a, v) ∷ d) s ≡ (ok (a ∷ r), t)
  unfolding expire_pending remove_pending_session
  expire_pending_step now a v d s q due e = ground (arith, q, due, e)

  -- What an expiry of sessions keeps; it leaves the pending ones alone.
  pub record Expires (k : ℕ) (run : Exec (SecureState C) (List Text)) (s : SecureState C)
      : Type 0 where
    pub result : List Text
    pub after : SecureState C
    pub runs : run s ≡ (ok result, after)
    pub holds : HoldsWith k after
    pub limits : after.limits ≡ s.limits
    pub pending : after.pending_sessions ≡ s.pending_sessions

  expire_sessions-Expires :
      {k : ℕ} (now : ℕ) (d : Dict Text (SecureSession C)) (s : SecureState C)
      → s.sessions ≡ d
      → HoldsWith k s
      → Expires k (expire_sessions now d) s
  unfolding expire_sessions remove_session
  expire_sessions-Expires now [] s e h = record {
    result = [];
    after = s;
    runs = refl;
    holds = h;
    limits = refl;
    pending = refl;
  }
  expire_sessions-Expires now ((a, v) ∷ d) s e h =
      elim (Bool-cases (ltb now (v.last_seen + s.limits.session_ttl))) [
        | inl live ↦ record {
          result = [];
          after = s;
          runs = rw live refl;
          holds = h;
          limits = refl;
          pending = refl;
        }
        | inr due ↦
            let q : lookup a s.sessions ≡ some v = ap (lookup a) e ∙ lookup_head a v d in
            let t = without_session a expired_reason v s in
            let r =
              expire_sessions-Expires now d t (ap (remove a) e ∙ remove_head a v d)
                (without_session-HoldsWith a expired_reason v s h q) in
            record {
              result = a ∷ r.result;
              after = r.after;
              runs = expire_sessions_step now a v d s q due r.runs;
              holds = r.holds;
              limits = r.limits;
              pending = r.pending;
            }
      ]

  pub expire_pending-Keeps :
      {k : ℕ} (now : ℕ) (d : Dict Text (PendingSession C)) (s : SecureState C)
      → s.pending_sessions ≡ d
      → HoldsWith k s
      → Keeps k (expire_pending now d) s
  unfolding expire_pending remove_pending_session
  expire_pending-Keeps now [] s e h = record {
    result = [];
    after = s;
    runs = refl;
    holds = h;
    limits = refl;
  }
  expire_pending-Keeps now ((a, v) ∷ d) s e h =
      elim (Bool-cases (ltb now (v.created_at + s.limits.pending_session_ttl))) [
        | inl live ↦ record {
          result = [];
          after = s;
          runs = rw live refl;
          holds = h;
          limits = refl;
        }
        | inr due ↦
            let q : lookup a s.pending_sessions ≡ some v = ap (lookup a) e ∙ lookup_head a v d in
            let t = without_pending a expired_reason v s in
            let r =
              expire_pending-Keeps now d t (ap (remove a) e ∙ remove_head a v d)
                (without_pending-HoldsWith a expired_reason v s h q) in
            record {
              result = a ∷ r.result;
              after = r.after;
              runs = expire_pending_step now a v d s q due r.runs;
              holds = r.holds;
              limits = r.limits;
            }
      ]

  pub cleanup_expired_sessions-Expires :
      {k : ℕ} (now : ℕ) (s : SecureState C)
      → HoldsWith k s
      → Expires k (cleanup_expired_sessions now) s
  unfolding cleanup_expired_sessions
  cleanup_expired_sessions-Expires now s h =
      let r = expire_sessions-Expires now s.sessions s refl h in
      record {
        result = r.result;
        after = r.after;
        runs = r.runs;
        holds = r.holds;
        limits = r.limits;
        pending = r.pending;
      }

  pub cleanup_expired_pending_sessions-Keeps :
      {k : ℕ} (now : ℕ) (s : SecureState C)
      → HoldsWith k s
      → Keeps k (cleanup_expired_pending_sessions now) s
  unfolding cleanup_expired_pending_sessions
  cleanup_expired_pending_sessions-Keeps now s h =
      let r = expire_pending-Keeps now s.pending_sessions s refl h in
      record {
        result = r.result;
        after = r.after;
        runs = r.runs;
        holds = r.holds;
        limits = r.limits;
      }
