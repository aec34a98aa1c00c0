-- ===== src/SecureState/Calls.antt =====
-- aismixer_secure.py: sequences of calls of `SecureState`, in any order, at any times.
use mathlib.Core.Path.{subst}
use mathlib.Core.Option.{some-injective, none-ne-some}
use aismixer.Prelude.{
  ℕ, ◌+◌, ◌≤◌, Bool, true, none, some, List, [], ◌∷◌, ◌≡◌, refl, ◌∙◌, sym, ap, arith, Text,
  if◌then◌else◌, ok, Exec, pure, ◌>>=◌, ◌>>◌, All, Bool-cases, inl, inr, nat_eq, text_eq,
}
use aismixer.Prelude.Dict.{lookup}
use aismixer.SecureState.{Handle, Limits, SecureState, init, are_positive, new_state}
use aismixer.SecureState.Expiring.Sync.{empty_set-IsSynced}
use aismixer.SecureState.Sessions.{
  cleanup_expired_sessions, cleanup_expired_pending_sessions, install_session,
  install_pending_session, get_active_session, get_pending_session, touch_session,
  promote_pending_session,
}
use aismixer.SecureState.Nonces.{
  accept_handshake_replay, data_nonce_seen, pending_data_nonce_seen, accept_data_nonce,
  accept_pending_data_nonce,
}
use aismixer.SecureState.Balance.{
  Keeps, cleanup_expired_sessions-Expires, cleanup_expired_pending_sessions-Keeps, session_nonces,
  pending_nonces,
}
use aismixer.SecureState.Tables.{total}
use aismixer.SecureState.Operations.{
  IsValid, touch_session-Keeps, install_session-Keeps, install_pending_session-Keeps,
  promote_pending_session-Keeps,
}
use aismixer.SecureState.Accepting.{
  data_nonce_seen-Keeps, pending_data_nonce_seen-Keeps, accept_data_nonce-Keeps,
  accept_pending_data_nonce-Keeps, accept_handshake_replay-Keeps,
}
use aismixer.SecureState.Stats.{SecureStateStats, stats}

-- a call of a public method with its arguments; the last one is the time
pub data Call (C : Type 0) : Type 0 where
  cleanup_call cleanup_pending_call : ℕ → Call C
  install_call install_pending_call : Text → Text → C → C → ℕ → Call C
  get_call get_pending_call : Text → ℕ → Call C
  touch_call promote_call : Handle → ℕ → Call C
  seen_call pending_seen_call accept_call accept_pending_call : Handle → Text → ℕ → Call C
  replay_call : Text → ℕ → Call C

module _ {C : Type 0} where
  -- the call, whatever it answers
  abbrev pub answered : {A : Type 0} → Exec (SecureState C) A → Exec (SecureState C) (Unit {0})
  answered run = do _ ← run; pure tt

  unfoldable pub perform : Call C → Exec (SecureState C) (Unit {0})
  unfolding cleanup_expired_sessions cleanup_expired_pending_sessions install_session
      install_pending_session get_active_session get_pending_session touch_session
      promote_pending_session data_nonce_seen pending_data_nonce_seen accept_data_nonce
      accept_pending_data_nonce accept_handshake_replay
  perform (cleanup_call now) = answered (cleanup_expired_sessions now)
  perform (cleanup_pending_call now) = answered (cleanup_expired_pending_sessions now)
  perform (install_call addr station c d now) = answered (install_session addr station c d now)
  perform (install_pending_call addr station c d now) =
      answered (install_pending_session addr station c d now)
  perform (get_call addr now) = answered (get_active_session addr now)
  perform (get_pending_call addr now) = answered (get_pending_session addr now)
  perform (touch_call h now) = answered (touch_session h now)
  perform (promote_call h now) = answered (promote_pending_session h now)
  perform (seen_call h nonce now) = answered (data_nonce_seen h nonce now)
  perform (pending_seen_call h nonce now) = answered (pending_data_nonce_seen h nonce now)
  perform (accept_call h nonce now) = answered (accept_data_nonce h nonce now)
  perform (accept_pending_call h nonce now) = answered (accept_pending_data_nonce h nonce now)
  perform (replay_call key now) = answered (accept_handshake_replay key now)

  unfoldable pub perform_all : List (Call C) → Exec (SecureState C) (Unit {0})
  unfolding perform
  perform_all [] = pure tt
  perform_all (call ∷ rest) = do perform call; perform_all rest

  -- the station of a session that the call installs is one that is known
  abbrev pub IsKnown : (Text → Type 0) → Call C → Type 0
  IsKnown Known (install_call addr station c d now) = Known station
  IsKnown Known (install_pending_call addr station c d now) = Known station
  IsKnown Known _ = Unit

  module _ (Known : Text → Type 0) where
    answered-Keeps :
        {A : Type 0} (run : Exec (SecureState C) A) (s : SecureState C)
        → Keeps Known 0 run s
        → Keeps Known 0 (answered run) s
    answered-Keeps run s r = record {
      result = tt;
      after = r.after;
      runs = rw r.runs refl;
      holds = r.holds;
      limits = r.limits;
    }

    cleanup-Keeps :
        (now : ℕ) (s : SecureState C)
        → IsValid Known s
        → Keeps Known 0 (cleanup_expired_sessions now) s
    cleanup-Keeps now s v =
        let e = cleanup_expired_sessions-Expires Known now s v in
        record {
          result = e.result;
          after = e.after;
          runs = e.runs;
          holds = e.holds;
          limits = e.limits;
        }

    get_active_session-Keeps :
        (addr : Text) (now : ℕ) (s : SecureState C)
        → IsValid Known s
        → Keeps Known 0 (get_active_session addr now) s
    unfolding get_active_session
    get_active_session-Keeps addr now s v =
        let e = cleanup_expired_sessions-Expires Known now s v in
        record {
          result = lookup addr e.after.sessions;
          after = e.after;
          runs = rw e.runs refl;
          holds = e.holds;
          limits = e.limits;
        }

    get_pending_session-Keeps :
        (addr : Text) (now : ℕ) (s : SecureState C)
        → IsValid Known s
        → Keeps Known 0 (get_pending_session addr now) s
    unfolding get_pending_session
    get_pending_session-Keeps addr now s v =
        let e = cleanup_expired_pending_sessions-Keeps Known now s v in
        record {
          result = lookup addr e.after.pending_sessions;
          after = e.after;
          runs = rw e.runs refl;
          holds = e.holds;
          limits = e.limits;
        }

    pub perform-Keeps :
        (call : Call C) (s : SecureState C)
        → IsValid Known s
        → IsKnown Known call
        → Keeps Known 0 (perform call) s
    unfolding perform
    perform-Keeps (cleanup_call now) s v k =
        answered-Keeps (cleanup_expired_sessions now) s (cleanup-Keeps now s v)
    perform-Keeps (cleanup_pending_call now) s v k =
        answered-Keeps (cleanup_expired_pending_sessions now) s
          (cleanup_expired_pending_sessions-Keeps Known now s v)
    perform-Keeps (install_call addr station c d now) s v k =
        answered-Keeps (install_session addr station c d now) s
          (install_session-Keeps Known addr station c d now s v k)
    perform-Keeps (install_pending_call addr station c d now) s v k =
        answered-Keeps (install_pending_session addr station c d now) s
          (install_pending_session-Keeps Known addr station c d now s v k)
    perform-Keeps (get_call addr now) s v k =
        answered-Keeps (get_active_session addr now) s (get_active_session-Keeps addr now s v)
    perform-Keeps (get_pending_call addr now) s v k =
        answered-Keeps (get_pending_session addr now) s (get_pending_session-Keeps addr now s v)
    perform-Keeps (touch_call h now) s v k =
        answered-Keeps (touch_session h now) s (touch_session-Keeps Known h now s v)
    perform-Keeps (promote_call h now) s v k =
        answered-Keeps (promote_pending_session h now) s
          (promote_pending_session-Keeps Known h now s v)
    perform-Keeps (seen_call h nonce now) s v k =
        answered-Keeps (data_nonce_seen h nonce now) s (data_nonce_seen-Keeps Known h nonce now s v)
    perform-Keeps (pending_seen_call h nonce now) s v k =
        answered-Keeps (pending_data_nonce_seen h nonce now) s
          (pending_data_nonce_seen-Keeps Known h nonce now s v)
    perform-Keeps (accept_call h nonce now) s v k =
        answered-Keeps (accept_data_nonce h nonce now) s
          (accept_data_nonce-Keeps Known h nonce now s v)
    perform-Keeps (accept_pending_call h nonce now) s v k =
        answered-Keeps (accept_pending_data_nonce h nonce now) s
          (accept_pending_data_nonce-Keeps Known h nonce now s v)
    perform-Keeps (replay_call key now) s v k =
        answered-Keeps (accept_handshake_replay key now) s
          (accept_handshake_replay-Keeps Known key now s v)

    pub perform_all-Keeps :
        (calls : List (Call C)) (s : SecureState C)
        → IsValid Known s
        → All (IsKnown Known) calls
        → Keeps Known 0 (perform_all calls) s
    unfolding perform_all
    perform_all-Keeps [] s v k = record {
      result = tt;
      after = s;
      runs = refl;
      holds = v;
      limits = refl;
    }
    perform_all-Keeps (call ∷ rest) s v k =
        let r = perform-Keeps call s v k.0 in
        let q = perform_all-Keeps rest r.after r.holds k.1 in
        record {
          result = tt;
          after = q.after;
          runs = rw r.runs q.runs;
          holds = q.holds;
          limits = q.limits ∙ r.limits;
        }

    new_state-IsValid :
        (limits : Limits) → are_positive limits ≡ true → IsValid {C = C} Known (new_state limits)
    unfolding lookup
    new_state-IsValid limits positive = record {
      sessions = record {
        distinct = tt;
        some_room = ground arith;
        within = omega arith;
        all = λ a v q. absurd (none-ne-some _ q);
      };
      pending = record {
        distinct = tt;
        some_room = ground arith;
        within = omega arith;
        all = λ a v q. absurd (none-ne-some _ q);
      };
      nonce_room = ground arith;
      replays =
          empty_set-IsSynced limits.handshake_replay_ttl limits.handshake_replay_max (ground arith);
      sessions_counted = record { created = refl; peak = omega arith };
      pending_counted = record { created = refl; peak = omega arith };
      replays_counted = record { accepted = refl; peak = omega arith };
      nonces_counted = record { current = refl; accepted = refl; peak = omega arith };
    }

    pub init-IsValid :
        (limits : Limits) (s : SecureState C)
        → init limits ≡ some s
        → IsValid Known s × (s.limits ≡ limits)
    unfolding init
    init-IsValid limits s h = elim (Bool-cases (are_positive limits)) [
      | inr refused ↦ absurd (ground arith)
      | inl positive ↦
          subst (λ (u : SecureState C). IsValid Known u × (u.limits ≡ limits))
            (some-injective _ _
              (ap (λ (b : Bool). if b then some (new_state limits) else none) (sym positive) ∙ h))
            (new_state-IsValid limits positive, refl)
    ]

-- What the statistics say: the tables are within their limits and peaks, and of everything that was
-- created or accepted, what is not there any more was counted once, for the reason that it went.
pub record IsConserved (limits : Limits) (t : SecureStateStats) : Type 0 where
  pub few_sessions : t.current_sessions ≤ limits.max_sessions
  pub few_pending : t.current_pending_sessions ≤ limits.max_pending_sessions
  pub sessions :
      t.sessions_created
      ≡ t.current_sessions
        + (t.sessions_replaced + (t.sessions_expired + t.sessions_capacity_evicted))
  pub pending :
      t.pending_sessions_created
      ≡ t.current_pending_sessions
        + (t.pending_sessions_replaced
            + (t.pending_sessions_promoted
                + (t.pending_sessions_expired + t.pending_sessions_capacity_evicted)))
  pub replays :
      t.handshake_replay_accepted
      ≡ t.current_handshake_replays
        + (t.handshake_replay_expired + t.handshake_replay_capacity_evicted)
  pub nonces :
      t.data_nonces_accepted
      ≡ t.current_data_nonces
        + (t.data_nonces_expired
            + (t.data_nonces_capacity_evicted + t.data_nonces_session_discarded))
  pub session_peak : t.current_sessions ≤ t.peak_sessions
  pub pending_peak : t.current_pending_sessions ≤ t.peak_pending_sessions
  pub replay_peak : t.current_handshake_replays ≤ t.peak_handshake_replays
  pub nonce_peak : t.current_data_nonces ≤ t.peak_data_nonces

abbrev pub AnyStation : Text → Type 0
AnyStation station = Unit

known : {C : Type 0} (call : Call C) → IsKnown AnyStation call
known (cleanup_call now) = tt
known (cleanup_pending_call now) = tt
known (install_call addr station c d now) = tt
known (install_pending_call addr station c d now) = tt
known (get_call addr now) = tt
known (get_pending_call addr now) = tt
known (touch_call h now) = tt
known (promote_call h now) = tt
known (seen_call h nonce now) = tt
known (pending_seen_call h nonce now) = tt
known (accept_call h nonce now) = tt
known (accept_pending_call h nonce now) = tt
known (replay_call key now) = tt

all_known : {C : Type 0} (calls : List (Call C)) → All (IsKnown AnyStation) calls
all_known [] = tt
all_known (call ∷ rest) = (known call, all_known rest)

-- Whatever calls a new `SecureState` gets, in whatever order, at whatever times and with whatever
-- handles, stale ones included, no call raises, and the statistics then balance: the sessions and the
-- pending sessions are within their limits, every one that was created is there or was counted as
-- replaced, promoted, expired or evicted, and so is every handshake and every nonce that was
-- accepted; the number of nonces that is kept up to date by adding and subtracting is the number of
-- the nonces in all the sessions' sets.
pub perform_all-IsConserved :
    {C : Type 0} (limits : Limits) (s : SecureState C) (calls : List (Call C))
    → init limits ≡ some s
    → (t : SecureState C) × (perform_all calls s ≡ (ok tt, t))
      × IsConserved limits (stats t)
      × ((stats t).current_data_nonces
          ≡ total (session_nonces AnyStation) t.sessions
            + total (pending_nonces AnyStation) t.pending_sessions)
unfolding stats
perform_all-IsConserved limits s calls h =
    let (v, same) = init-IsValid AnyStation limits s h in
    let r = perform_all-Keeps AnyStation calls s v (all_known calls) in
    let w = r.holds in
    let e = r.limits ∙ same in
    (
      r.after,
      r.runs,
      record {
        few_sessions = rw e at w.sessions.within;
        few_pending = rw e at w.pending.within;
        sessions = w.sessions_counted.created;
        pending = w.pending_counted.created;
        replays = w.replays_counted.accepted;
        nonces = omega (arith, w.nonces_counted.accepted, w.nonces_counted.current);
        session_peak = w.sessions_counted.peak;
        pending_peak = w.pending_counted.peak;
        replay_peak = w.replays_counted.peak;
        nonce_peak = omega (arith, w.nonces_counted.peak, w.nonces_counted.current);
      },
      omega (arith, w.nonces_counted.current),
    )
