-- ===== src/SecureState/Operations.antt =====
-- aismixer_secure.py: the operations of `SecureState`, one after the other, and the invariant.
use mathlib.Core.Path.{subst}
use aismixer.Prelude.{
  ℕ, ◌+◌, true, false, Option, none, some, [], ◌∷◌, ◌++◌, ◌≡◌, refl, ◌∙◌, ap, arith, Text, nat_eq,
  text_eq, length, ok, Result, pure, continue, Option-cases, inl, inr, list_beq_iff,
}
use aismixer.Prelude.Dict.{lookup, insert, insert_absent, remove, lookup-remove, length-insert}
use aismixer.SecureState.{SecureSession, PendingSession, Handle, NonceCounters, SecureState}
use aismixer.SecureState.Expiring.{ExpiringSet, size}
use aismixer.SecureState.Expiring.Sync.{IsSynced, empty_set-IsSynced}
use aismixer.SecureState.Tables.{
  IsTable, IsTable-remove, IsTable-insert_new, IsTable-update, length-remove_present,
  length-insert_new, total, total-remove, total-insert_new, total-update,
}
use aismixer.SecureState.Sessions.{
  held_session, held_pending, get_live_session_handle, get_live_pending_session_handle,
  touch_active_session, touch_session, install_session, install_pending_session,
  promote_pending_session, promote_found, fresh_nonces, take_pending,
}
use aismixer.SecureState.Nonces.{with_nonces, with_pending_nonces}
use aismixer.SecureState.Balance.{
  HoldsWith, Keeps, GoodSession, GoodPending, session_nonces, pending_nonces, NoncesCounted,
  cleanup_expired_sessions-Expires, cleanup_expired_pending_sessions-Keeps,
}
use aismixer.SecureState.Steps.{
  SessionRoom-make, PendingRoom-make, store_session-Keeps, store_pending-Keeps,
  take_pending-HoldsWith,
}

module _ {C : Type 0} (Known : Text → Type 0) where
  abbrev pub IsValid : SecureState C → Type 0
  IsValid = HoldsWith Known 0

  -- A session that a handle stands for, in the table that it is found in.
  pub record LiveSession (h : Handle) (now : ℕ) (s : SecureState C) : Type 0 where
    pub found : Option (SecureSession C)
    pub after : SecureState C
    pub runs : get_live_session_handle h now s ≡ (ok found, after)
    pub holds : IsValid after
    pub limits : after.limits ≡ s.limits
    pub stands : (v : SecureSession C) → found ≡ some v → lookup h.address after.sessions ≡ some v

  held_session_there :
      (h : Handle) (s : SecureState C) (v : SecureSession C)
      → held_session h s ≡ some v
      → lookup h.address s.sessions ≡ some v
  held_session_there h s v q = ground arith

  pub get_live-LiveSession :
      (h : Handle) (now : ℕ) (s : SecureState C) → IsValid s → LiveSession h now s
  unfolding get_live_session_handle
  get_live-LiveSession h now s i = elim (Option-cases (held_session h s)) [
    | inl gone ↦ record {
      found = none;
      after = s;
      runs = ground (arith, gone);
      holds = i;
      limits = refl;
      stands = λ v q. absurd (ground arith);
    }
    | inr (v, there) ↦
        let c = cleanup_expired_sessions-Expires Known now s i in
        record {
          found = held_session h c.after;
          after = c.after;
          runs = ground (arith, there, c.runs);
          holds = c.holds;
          limits = c.limits;
          stands = λ w q. held_session_there h c.after w q;
        }
  ]

  pub record LivePending (h : Handle) (now : ℕ) (s : SecureState C) : Type 0 where
    pub found : Option (PendingSession C)
    pub after : SecureState C
    pub runs : get_live_pending_session_handle h now s ≡ (ok found, after)
    pub holds : IsValid after
    pub limits : after.limits ≡ s.limits
    pub stands :
        (v : PendingSession C) → found ≡ some v → lookup h.address after.pending_sessions ≡ some v

  held_pending_there :
      (h : Handle) (s : SecureState C) (v : PendingSession C)
      → held_pending h s ≡ some v
      → lookup h.address s.pending_sessions ≡ some v
  held_pending_there h s v q = ground arith

  pub get_live-LivePending :
      (h : Handle) (now : ℕ) (s : SecureState C) → IsValid s → LivePending h now s
  unfolding get_live_pending_session_handle
  get_live-LivePending h now s i = elim (Option-cases (held_pending h s)) [
    | inl gone ↦ record {
      found = none;
      after = s;
      runs = ground (arith, gone);
      holds = i;
      limits = refl;
      stands = λ v q. absurd (ground arith);
    }
    | inr (v, there) ↦
        let c = cleanup_expired_pending_sessions-Keeps Known now s i in
        record {
          found = held_pending h c.after;
          after = c.after;
          runs = ground (arith, there, c.runs);
          holds = c.holds;
          limits = c.limits;
          stands = λ w q. held_pending_there h c.after w q;
        }
  ]

  -- the table after a touch: the session goes to the end
  touch_active_session-IsValid :
      (a : Text) (v : SecureSession C) (now : ℕ) (s : SecureState C)
      → IsValid s
      → lookup a s.sessions ≡ some v
      → IsValid (touch_active_session a v now s)
  unfolding touch_active_session
  touch_active_session-IsValid a v now s h q =
      let w : SecureSession C = record v { last_seen = now } in
      let rest = remove a s.sessions in
      let gone : lookup a rest ≡ none =
        ground (arith, lookup-remove a a s.sessions h.sessions.distinct, list_beq_iff a a) in
      let e : insert a w rest ≡ rest ++ (a, w) ∷ [] = insert_absent a w rest gone in
      let len = length-remove_present a v s.sessions q in
      let len' = length-insert_new a w rest gone in
      let sum = total-remove (session_nonces Known) a v s.sessions q in
      let sum' = total-insert_new (session_nonces Known) a w rest gone in
      let table =
        IsTable-insert_new (GoodSession Known) s.limits.max_sessions rest a w
          (IsTable-remove (GoodSession Known) s.limits.max_sessions s.sessions a h.sessions) gone
          (omega (arith, len, h.sessions.within)) (h.sessions.all a v q) in
      record {
        sessions = subst (IsTable (GoodSession Known) s.limits.max_sessions) e table;
        pending = h.pending;
        nonce_room = h.nonce_room;
        replays = h.replays;
        sessions_counted = record {
          created = omega (arith, h.sessions_counted.created, len, len', ap length e);
          peak = omega (arith, h.sessions_counted.peak, len, len', ap length e);
        };
        pending_counted = h.pending_counted;
        replays_counted = h.replays_counted;
        nonces_counted = record {
          current =
              omega
                (arith, h.nonces_counted.current, sum, sum', ap (total (session_nonces Known)) e);
          accepted =
              omega
                (arith, h.nonces_counted.accepted, sum, sum', ap (total (session_nonces Known)) e);
          peak =
              omega (arith, h.nonces_counted.peak, sum, sum', ap (total (session_nonces Known)) e);
        };
      }

  pub touch_session-Keeps :
      (h : Handle) (now : ℕ) (s : SecureState C) → IsValid s → Keeps Known 0 (touch_session h now) s
  unfolding touch_session
  touch_session-Keeps h now s i =
      let l = get_live-LiveSession h now s i in
      elim (Option-cases l.found) [
        | inl gone ↦ record {
          result = false;
          after = l.after;
          runs = rw (l.runs, gone) refl;
          holds = l.holds;
          limits = l.limits;
        }
        | inr (v, there) ↦ record {
          result = true;
          after = touch_active_session h.address v now l.after;
          runs = rw (l.runs, there) refl;
          holds = touch_active_session-IsValid h.address v now l.after l.holds (l.stands v there);
          limits = unfold touch_active_session in l.limits;
        }
      ]

  pub install_session-Keeps :
      (a station : Text) (c d : C) (now : ℕ) (s : SecureState C)
      → IsValid s
      → Known station
      → Keeps Known 0 (install_session a station c d now) s
  unfolding install_session
  install_session-Keeps a station c d now s i known =
      let e = cleanup_expired_sessions-Expires Known now s i in
      let m = SessionRoom-make Known a e.after e.holds in
      let r =
        store_session-Keeps Known a station c d now (fresh_nonces m.after) m.after m.holds m.absent
          m.room
          (empty_set-IsSynced m.after.limits.data_nonce_ttl
            m.after.limits.data_nonce_max_per_session m.holds.nonce_room)
          known in
      record {
        result = r.result;
        after = r.after;
        runs = rw (e.runs, m.runs) r.runs;
        holds = r.holds;
        limits = r.limits ∙ m.limits ∙ e.limits;
      }

  pub install_pending_session-Keeps :
      (a station : Text) (c d : C) (now : ℕ) (s : SecureState C)
      → IsValid s
      → Known station
      → Keeps Known 0 (install_pending_session a station c d now) s
  unfolding install_pending_session
  install_pending_session-Keeps a station c d now s i known =
      let e = cleanup_expired_pending_sessions-Keeps Known now s i in
      let m = PendingRoom-make Known a e.after e.holds in
      let r = store_pending-Keeps Known a station c d now m.after m.holds m.absent m.room known in
      record {
        result = r.result;
        after = r.after;
        runs = rw (e.runs, m.runs) r.runs;
        holds = r.holds;
        limits = r.limits ∙ m.limits ∙ e.limits;
      }

  -- What becomes of a pending session that is promoted, in the order of the code.
  promotion :
      (h : Handle) (now : ℕ) (v : PendingSession C) (s : SecureState C)
      → IsValid s
      → lookup h.address s.pending_sessions ≡ some v
      → Keeps Known 0 (promote_found h now v) s
  unfolding promote_found
  promotion h now v s i q =
      let (synced, known) = i.pending.all h.address v q in
      let e = cleanup_expired_sessions-Expires Known now s i in
      let same : e.after.pending_sessions ≡ s.pending_sessions = e.pending in
      let t = take_pending h.address e.after in
      let j =
        take_pending-HoldsWith Known h.address v e.after e.holds (ap (lookup h.address) same ∙ q) in
      let m = SessionRoom-make Known h.address t j in
      let r =
        store_session-Keeps Known h.address v.station_id v.client_to_server v.server_to_client now
          v.seen_data_nonces m.after m.holds m.absent m.room synced known in
      record {
        result = some r.result;
        after = r.after;
        runs =
            rw (e.runs, m.runs)
              (ap (λ (x : Result Handle × SecureState C). continue x.0 (λ y. pure (some y)) x.1)
                r.runs);
        holds = r.holds;
        limits = r.limits ∙ m.limits ∙ (unfold take_pending in e.limits);
      }

  pub promote_pending_session-Keeps :
      (h : Handle) (now : ℕ) (s : SecureState C)
      → IsValid s
      → Keeps Known 0 (promote_pending_session h now) s
  unfolding promote_pending_session
  promote_pending_session-Keeps h now s i =
      let l = get_live-LivePending h now s i in
      elim (Option-cases l.found) [
        | inl gone ↦ record {
          result = none;
          after = l.after;
          runs = rw (l.runs, gone) refl;
          holds = l.holds;
          limits = l.limits;
        }
        | inr (v, there) ↦
            let r = promotion h now v l.after l.holds (l.stands v there) in
            record {
              result = r.result;
              after = r.after;
              runs = rw (l.runs, there) r.runs;
              holds = r.holds;
              limits = r.limits ∙ l.limits;
            }
      ]

  -- New nonces in the set of a session, with the counters that go with them.
  pub update_session :
      (a : Text) (v : SecureSession C) (nonces : ExpiringSet Text) (c : NonceCounters)
      (s : SecureState C)
      → IsValid s
      → lookup a s.sessions ≡ some v
      → IsSynced nonces
      → ((n m : ℕ)
          → NoncesCounted n s.nonce_counters
          → n ≡ size v.seen_data_nonces + m
          → NoncesCounted (size nonces + m) c)
      → IsValid (record (with_nonces a v nonces s) { nonce_counters = c })
  update_session a v nonces c s h q synced recount =
      let w : SecureSession C = record v { seen_data_nonces = nonces } in
      let sum = total-update (session_nonces Known) a v w s.sessions q in
      let gone = total-remove (session_nonces Known) a v s.sessions q in
      let len : length (insert a w s.sessions) ≡ length s.sessions =
        ground (arith, length-insert a w s.sessions) in
      record {
        sessions =
            IsTable-update (GoodSession Known) s.limits.max_sessions s.sessions a v w h.sessions q
              (synced, (h.sessions.all a v q).1);
        pending = h.pending;
        nonce_room = h.nonce_room;
        replays = h.replays;
        sessions_counted = record {
          created = omega (arith, h.sessions_counted.created, len);
          peak = omega (arith, h.sessions_counted.peak, len);
        };
        pending_counted = h.pending_counted;
        replays_counted = h.replays_counted;
        nonces_counted =
            subst (λ n. NoncesCounted n c) (omega (arith, sum, gone))
              (recount
                (total (session_nonces Known) s.sessions
                  + (total (pending_nonces Known) s.pending_sessions + 0))
                (total (session_nonces Known) (remove a s.sessions)
                  + (total (pending_nonces Known) s.pending_sessions + 0))
                h.nonces_counted (omega (arith, gone)));
      }

  pub update_pending :
      (a : Text) (v : PendingSession C) (nonces : ExpiringSet Text) (c : NonceCounters)
      (s : SecureState C)
      → IsValid s
      → lookup a s.pending_sessions ≡ some v
      → IsSynced nonces
      → ((n m : ℕ)
          → NoncesCounted n s.nonce_counters
          → n ≡ size v.seen_data_nonces + m
          → NoncesCounted (size nonces + m) c)
      → IsValid (record (with_pending_nonces a v nonces s) { nonce_counters = c })
  update_pending a v nonces c s h q synced recount =
      let w : PendingSession C = record v { seen_data_nonces = nonces } in
      let sum = total-update (pending_nonces Known) a v w s.pending_sessions q in
      let gone = total-remove (pending_nonces Known) a v s.pending_sessions q in
      let len : length (insert a w s.pending_sessions) ≡ length s.pending_sessions =
        ground (arith, length-insert a w s.pending_sessions) in
      record {
        sessions = h.sessions;
        pending =
            IsTable-update (GoodPending Known) s.limits.max_pending_sessions s.pending_sessions a v
              w h.pending q (synced, (h.pending.all a v q).1);
        nonce_room = h.nonce_room;
        replays = h.replays;
        sessions_counted = h.sessions_counted;
        pending_counted = record {
          created = omega (arith, h.pending_counted.created, len);
          peak = omega (arith, h.pending_counted.peak, len);
        };
        replays_counted = h.replays_counted;
        nonces_counted =
            subst (λ n. NoncesCounted n c) (omega (arith, sum, gone))
              (recount
                (total (session_nonces Known) s.sessions
                  + (total (pending_nonces Known) s.pending_sessions + 0))
                (total (session_nonces Known) s.sessions
                  + total (pending_nonces Known) (remove a s.pending_sessions))
                h.nonces_counted (omega (arith, gone)));
      }
