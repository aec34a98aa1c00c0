-- ===== src/SecureState/Steps.antt =====
-- aismixer_secure.py: making room in the tables of `SecureState`, and storing a session.
use aismixer.Prelude.{
  ℕ, ◌≤◌, ◌<◌, none, some, [], ◌∷◌, ◌≡◌, refl, arith, Text, nat_eq, text_eq, leb, length, ok,
  Bool-cases, Option-cases, inl, inr, list_beq_iff,
}
use aismixer.Prelude.Dict.{Dict, lookup, lookup-remove}
use aismixer.SecureState.{SecureSession, PendingSession, SecureState}
use aismixer.SecureState.Expiring.{ExpiringSet, size}
use aismixer.SecureState.Expiring.Sync.{IsSynced, empty_set-IsSynced}
use aismixer.SecureState.Tables.{
  IsTable-remove, IsTable-insert_new, length-remove_present, length-insert_new, lookup_head,
  total-remove, total-insert_new,
}
use aismixer.SecureState.Sessions.{
  capacity_reason, replaced_reason, without_session, remove_session, without_pending,
  remove_pending_session, first_key, make_session_room, make_pending_room, store_session,
  store_pending, take_pending, fresh_nonces,
}
use aismixer.SecureState.Balance.{
  HoldsWith, Keeps, GoodSession, GoodPending, session_nonces, pending_nonces,
  without_session-HoldsWith, without_pending-HoldsWith,
}

-- a table that is not empty has its first key
first_key_there :
    {V : Type 0} (d : Dict Text V) (a : Text)
    → 1 ≤ length d
    → (v : V) × (lookup (first_key d a) d ≡ some v)
first_key_there [] a h = absurd (omega (arith, h))
first_key_there ((b, v) ∷ d) a h = (v, lookup_head b v d)

module _ {C : Type 0} (Known : Text → Type 0) where
  -- Room for a session of the address, which then has none.
  pub record SessionRoom (k : ℕ) (a : Text) (s : SecureState C) : Type 0 where
    pub after : SecureState C
    pub runs : make_session_room a s ≡ (ok tt, after)
    pub holds : HoldsWith Known k after
    pub limits : after.limits ≡ s.limits
    pub absent : lookup a after.sessions ≡ none
    pub room : length after.sessions < after.limits.max_sessions
    pub next_id : after.next_id ≡ s.next_id

  pub SessionRoom-make :
      {k : ℕ} (a : Text) (s : SecureState C) → HoldsWith Known k s → SessionRoom k a s
  unfolding make_session_room remove_session
  SessionRoom-make a s h = elim (Option-cases (lookup a s.sessions)) [
    | inr (v, q) ↦ record {
      after = without_session a replaced_reason v s;
      runs = ground (arith, q);
      holds = without_session-HoldsWith Known a replaced_reason v s h q;
      limits = refl;
      absent = ground (arith, lookup-remove a a s.sessions h.sessions.distinct, list_beq_iff a a);
      room = omega (arith, h.sessions.within, length-remove_present a v s.sessions q);
      next_id = refl;
    }
    | inl new ↦ elim (Bool-cases (leb s.limits.max_sessions (length s.sessions))) [
      | inr roomy ↦ record {
        after = s;
        runs = ground (arith, new, roomy);
        holds = h;
        limits = refl;
        absent = new;
        room = ground arith;
        next_id = refl;
      }
      | inl full ↦
          let (v, q) = first_key_there s.sessions a (ground (arith, h.sessions.some_room)) in
          let b = first_key s.sessions a in
          record {
            after = without_session b capacity_reason v s;
            runs = ground (arith, new, full, q);
            holds = without_session-HoldsWith Known b capacity_reason v s h q;
            limits = refl;
            absent = ground (arith, lookup-remove b a s.sessions h.sessions.distinct);
            room = omega (arith, h.sessions.within, length-remove_present b v s.sessions q);
            next_id = refl;
          }
    ]
  ]

  pub record PendingRoom (k : ℕ) (a : Text) (s : SecureState C) : Type 0 where
    pub after : SecureState C
    pub runs : make_pending_room a s ≡ (ok tt, after)
    pub holds : HoldsWith Known k after
    pub limits : after.limits ≡ s.limits
    pub absent : lookup a after.pending_sessions ≡ none
    pub room : length after.pending_sessions < after.limits.max_pending_sessions

  pub PendingRoom-make :
      {k : ℕ} (a : Text) (s : SecureState C) → HoldsWith Known k s → PendingRoom k a s
  unfolding make_pending_room remove_pending_session
  PendingRoom-make a s h = elim (Option-cases (lookup a s.pending_sessions)) [
    | inr (v, q) ↦ record {
      after = without_pending a replaced_reason v s;
      runs = ground (arith, q);
      holds = without_pending-HoldsWith Known a replaced_reason v s h q;
      limits = refl;
      absent =
          ground (arith, lookup-remove a a s.pending_sessions h.pending.distinct, list_beq_iff a a);
      room = omega (arith, h.pending.within, length-remove_present a v s.pending_sessions q);
    }
    | inl new ↦ elim (Bool-cases (leb s.limits.max_pending_sessions (length s.pending_sessions))) [
      | inr roomy ↦ record {
        after = s;
        runs = ground (arith, new, roomy);
        holds = h;
        limits = refl;
        absent = new;
        room = ground arith;
      }
      | inl full ↦
          let (v, q) = first_key_there s.pending_sessions a (ground (arith, h.pending.some_room)) in
          let b = first_key s.pending_sessions a in
          record {
            after = without_pending b capacity_reason v s;
            runs = ground (arith, new, full, q);
            holds = without_pending-HoldsWith Known b capacity_reason v s h q;
            limits = refl;
            absent = ground (arith, lookup-remove b a s.pending_sessions h.pending.distinct);
            room = omega (arith, h.pending.within, length-remove_present b v s.pending_sessions q);
          }
    ]
  ]

  -- A session is stored with the nonces that were on their way.
  pub store_session-Keeps :
      (a station : Text) (c d : C) (now : ℕ) (nonces : ExpiringSet Text) (s : SecureState C)
      → HoldsWith Known (size nonces) s
      → lookup a s.sessions ≡ none
      → length s.sessions < s.limits.max_sessions
      → IsSynced nonces
      → Known station
      → Keeps Known 0 (store_session a station c d now nonces) s
  unfolding store_session
  store_session-Keeps a station c d now nonces s h new room synced known =
      let v : SecureSession C = record {
        id = s.next_id;
        station_id = station;
        client_to_server = c;
        server_to_client = d;
        created_at = now;
        last_seen = now;
        seen_data_nonces = nonces;
      } in
      let t = (store_session a station c d now nonces s).1 in
      let len = length-insert_new a v s.sessions new in
      record {
        result = record { address = a; id = s.next_id };
        after = t;
        runs = refl;
        limits = refl;
        holds = record {
          sessions =
              IsTable-insert_new (GoodSession Known) s.limits.max_sessions s.sessions a v h.sessions
                new room (synced, known);
          pending = h.pending;
          nonce_room = h.nonce_room;
          replays = h.replays;
          sessions_counted = record {
            created = omega (arith, h.sessions_counted.created, len);
            peak = omega (arith, h.sessions_counted.peak, len);
          };
          pending_counted = h.pending_counted;
          replays_counted = h.replays_counted;
          nonces_counted = record {
            current = omega (
              arith,
              h.nonces_counted.current,
              total-insert_new (session_nonces Known) a v s.sessions new,
            );
            accepted = omega (
              arith,
              h.nonces_counted.accepted,
              total-insert_new (session_nonces Known) a v s.sessions new,
            );
            peak = omega (
              arith,
              h.nonces_counted.peak,
              total-insert_new (session_nonces Known) a v s.sessions new,
            );
          };
        };
      }

  pub store_pending-Keeps :
      (a station : Text) (c d : C) (now : ℕ) (s : SecureState C)
      → HoldsWith Known 0 s
      → lookup a s.pending_sessions ≡ none
      → length s.pending_sessions < s.limits.max_pending_sessions
      → Known station
      → Keeps Known 0 (store_pending a station c d now) s
  unfolding store_pending
  store_pending-Keeps a station c d now s h new room known =
      let v : PendingSession C = record {
        id = s.next_id;
        station_id = station;
        client_to_server = c;
        server_to_client = d;
        created_at = now;
        seen_data_nonces = fresh_nonces s;
      } in
      let t = (store_pending a station c d now s).1 in
      let len = length-insert_new a v s.pending_sessions new in
      record {
        result = record { address = a; id = s.next_id };
        after = t;
        runs = refl;
        limits = refl;
        holds = record {
          sessions = h.sessions;
          pending =
              IsTable-insert_new (GoodPending Known) s.limits.max_pending_sessions
                s.pending_sessions a v h.pending new room
                (
                  empty_set-IsSynced s.limits.data_nonce_ttl s.limits.data_nonce_max_per_session
                      h.nonce_room,
                  known,
                );
          nonce_room = h.nonce_room;
          replays = h.replays;
          sessions_counted = h.sessions_counted;
          pending_counted = record {
            created = omega (arith, h.pending_counted.created, len);
            peak = omega (arith, h.pending_counted.peak, len);
          };
          replays_counted = h.replays_counted;
          nonces_counted = record {
            current = omega (
              arith,
              h.nonces_counted.current,
              total-insert_new (pending_nonces Known) a v s.pending_sessions new,
            );
            accepted = omega (
              arith,
              h.nonces_counted.accepted,
              total-insert_new (pending_nonces Known) a v s.pending_sessions new,
            );
            peak = omega (
              arith,
              h.nonces_counted.peak,
              total-insert_new (pending_nonces Known) a v s.pending_sessions new,
            );
          };
        };
      }

  -- A pending session leaves its table, and its nonces are on their way.
  pub take_pending-HoldsWith :
      (a : Text) (v : PendingSession C) (s : SecureState C)
      → HoldsWith Known 0 s
      → lookup a s.pending_sessions ≡ some v
      → HoldsWith Known (size v.seen_data_nonces) (take_pending a s)
  unfolding take_pending
  take_pending-HoldsWith a v s h q =
      let len = length-remove_present a v s.pending_sessions q in
      let gone = total-remove (pending_nonces Known) a v s.pending_sessions q in
      record {
        sessions = h.sessions;
        pending =
            IsTable-remove (GoodPending Known) s.limits.max_pending_sessions s.pending_sessions a
              h.pending;
        nonce_room = h.nonce_room;
        replays = h.replays;
        sessions_counted = h.sessions_counted;
        pending_counted = record {
          created = omega (arith, h.pending_counted.created, len);
          peak = omega (arith, h.pending_counted.peak, len);
        };
        replays_counted = h.replays_counted;
        nonces_counted = record {
          current = omega (arith, h.nonces_counted.current, gone);
          accepted = omega (arith, h.nonces_counted.accepted, gone);
          peak = omega (arith, h.nonces_counted.peak, gone);
        };
      }
