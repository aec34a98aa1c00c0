-- ===== src/SecureState/Promotion.antt =====
-- aismixer_secure.py: `install_pending_session` and then `promote_pending_session`.
use mathlib.Core.Path.{subst}
use aismixer.Prelude.{
  ℕ, ◌+◌, ◌<◌, true, false, Option, some, List, [], ◌∷◌, ◌≡◌, refl, ◌∙◌, sym, ap, arith, Text,
  nat_eq, nat_beq, text_eq, ltb, ok, Result, Bool-cases, inl, inr, list_beq_iff,
}
use aismixer.Prelude.Dict.{Dict, lookup, remove, lookup-remove, lookup-insert_self}
use aismixer.SecureState.{SecureSession, PendingSession, Handle, Limits, SecureState}
use aismixer.SecureState.Tables.{remove_head, lookup_head}
use aismixer.SecureState.Sessions.{
  expired_reason, without_pending, expire_pending, cleanup_expired_pending_sessions,
  install_pending_session, store_pending, held_pending, get_live_pending_session_handle,
  promote_found, promote_pending_session, take_pending, store_session, fresh_nonces,
}
use aismixer.SecureState.Balance.{
  HoldsWith, without_pending-HoldsWith, expire_pending-Keeps, expire_pending_step,
  cleanup_expired_sessions-Expires, cleanup_expired_pending_sessions-Keeps,
}
use aismixer.SecureState.Steps.{
  SessionRoom-make, PendingRoom-make, store_pending-Keeps, take_pending-HoldsWith,
}
use aismixer.SecureState.Operations.{IsValid}

module _ {C : Type 0} (Known : Text → Type 0) where
  -- at the time, the pending session's time to live is not over
  abbrev IsPending : ℕ → PendingSession C → SecureState C → Type 0
  IsPending now v s = now < v.created_at + s.limits.pending_session_ttl

  other_key :
      (a b : Text) (v w : PendingSession C) (now : ℕ) (s : SecureState C)
      → HoldsWith Known 0 s
      → lookup a s.pending_sessions ≡ some v
      → lookup b s.pending_sessions ≡ some w
      → IsPending now v s
      → ltb now (w.created_at + s.limits.pending_session_ttl) ≡ false
      → lookup a (remove b s.pending_sessions) ≡ some v
  other_key a b v w now s h q p live due = ground (
    arith,
    lookup-remove b a s.pending_sessions h.pending.distinct,
    list_beq_iff b a,
    q,
    p,
    live,
    due,
  )

  expire_pending_later :
      (now : ℕ) (d : Dict Text (PendingSession C)) (s : SecureState C) (a : Text)
      (v : PendingSession C)
      → s.pending_sessions ≡ d
      → HoldsWith Known 0 s
      → lookup a s.pending_sessions ≡ some v
      → IsPending now v s
      → lookup a (expire_pending now d s).1.pending_sessions ≡ some v
  unfolding expire_pending
  expire_pending_later now [] s a v e h q live = q
  expire_pending_later now ((b, w) ∷ d) s a v e h q live =
      elim (Bool-cases (ltb now (w.created_at + s.limits.pending_session_ttl))) [
        | inl later ↦ rw later q
        | inr due ↦
            let p : lookup b s.pending_sessions ≡ some w = ap (lookup b) e ∙ lookup_head b w d in
            let t = without_pending b expired_reason w s in
            let et : t.pending_sessions ≡ d = ap (remove b) e ∙ remove_head b w d in
            let ht = without_pending-HoldsWith Known b expired_reason w s h p in
            let r = expire_pending-Keeps Known now d t et ht in
            let i =
              expire_pending_later now d t a v et ht (other_key a b v w now s h q p live due)
                live in
            let found : Result (List Text) × SecureState C → Option (PendingSession C) =
              λ x. lookup a x.1.pending_sessions in
            ap found (expire_pending_step Known now b w d s p due r.runs)
            ∙ sym (ap found r.runs)
            ∙ i
      ]

  live_runs :
      (h : Handle) (now : ℕ) (s t : SecureState C) (v : PendingSession C) (expired : List Text)
      → held_pending h s ≡ some v
      → cleanup_expired_pending_sessions now s ≡ (ok expired, t)
      → held_pending h t ≡ some v
      → get_live_pending_session_handle h now s ≡ (ok (some v), t)
  unfolding get_live_pending_session_handle
  live_runs h now s t v expired there cleaned kept = ground (arith, there, cleaned, kept)

  -- the pending session of a handle that is still live
  live_handle :
      (h : Handle) (now : ℕ) (s : SecureState C) (v : PendingSession C)
      → IsValid Known s
      → lookup h.address s.pending_sessions ≡ some v
      → v.id ≡ h.id
      → IsPending now v s
      → (t : SecureState C) × (get_live_pending_session_handle h now s ≡ (ok (some v), t))
        × IsValid Known t
        × (lookup h.address t.pending_sessions ≡ some v)
  unfolding cleanup_expired_pending_sessions
  live_handle h now s v i q same live =
      let c = cleanup_expired_pending_sessions-Keeps Known now s i in
      let id_is : nat_beq v.id h.id ≡ true = ground (arith, same) in
      let kept : lookup h.address c.after.pending_sessions ≡ some v =
        ap (λ (x : Result (List Text) × SecureState C). lookup h.address x.1.pending_sessions)
          (sym c.runs)
        ∙ expire_pending_later now s.pending_sessions s h.address v refl i q live in
      (
        c.after,
        live_runs h now s c.after v c.result (ground (arith, q, id_is)) c.runs
            (ground (arith, kept, id_is)),
        c.holds,
        kept,
      )

  -- a pending session that is found becomes the session of its address, with its station and ciphers
  promotes :
      (h : Handle) (now : ℕ) (v : PendingSession C) (s : SecureState C)
      → IsValid Known s
      → lookup h.address s.pending_sessions ≡ some v
      → (g : Handle) × (t : SecureState C) × (w : SecureSession C) × (promote_found h now v s
          ≡ (ok (some g), t))
        × (lookup h.address t.sessions ≡ some w)
        × (w.station_id ≡ v.station_id)
        × (w.client_to_server ≡ v.client_to_server)
        × (w.server_to_client ≡ v.server_to_client)
  unfolding promote_found store_session
  promotes h now v s i q =
      let e = cleanup_expired_sessions-Expires Known now s i in
      let j =
        take_pending-HoldsWith Known h.address v e.after e.holds
          (ap (lookup h.address) e.pending ∙ q) in
      let m = SessionRoom-make Known h.address (take_pending h.address e.after) j in
      let r =
        store_session h.address v.station_id v.client_to_server v.server_to_client now
          v.seen_data_nonces m.after in
      (
        record { address = h.address; id = m.after.next_id },
        r.1,
        record {
          id = m.after.next_id;
          station_id = v.station_id;
          client_to_server = v.client_to_server;
          server_to_client = v.server_to_client;
          created_at = now;
          last_seen = now;
          seen_data_nonces = v.seen_data_nonces;
        },
        rw (e.runs, m.runs) refl,
        lookup-insert_self h.address _ m.after.sessions,
        refl,
        refl,
        refl,
      )

  -- In a valid state, when a pending session is installed at a time and the next call on the state is
  -- its promotion, at that time or later but before its time to live is over, the promotion succeeds:
  -- the address then has a session with the station and the ciphers that were installed.
  pub promote_pending_session-install :
      (a station : Text) (c d : C) (start now : ℕ) (s : SecureState C)
      → IsValid Known s
      → Known station
      → now < start + s.limits.pending_session_ttl
      → (h g : Handle) × (p t : SecureState C) × (w : SecureSession C) × (install_pending_session a
            station c d start s
          ≡ (ok h, p))
        × (promote_pending_session h now p ≡ (ok (some g), t))
        × (lookup a t.sessions ≡ some w)
        × (w.station_id ≡ station)
        × (w.client_to_server ≡ c)
        × (w.server_to_client ≡ d)
  unfolding install_pending_session store_pending promote_pending_session
  promote_pending_session-install a station c d start now s i known live =
      let e = cleanup_expired_pending_sessions-Keeps Known start s i in
      let m = PendingRoom-make Known a e.after e.holds in
      let r = store_pending-Keeps Known a station c d start m.after m.holds m.absent m.room known in
      let p = (store_pending a station c d start m.after).1 in
      let h : Handle = record { address = a; id = m.after.next_id } in
      let v : PendingSession C = record {
        id = m.after.next_id;
        station_id = station;
        client_to_server = c;
        server_to_client = d;
        created_at = start;
        seen_data_nonces = fresh_nonces m.after;
      } in
      let valid : IsValid Known p =
        subst (λ (x : Result Handle × SecureState C). IsValid Known x.1) (sym r.runs) r.holds in
      let limits : p.limits ≡ s.limits = m.limits ∙ e.limits in
      let in_time : IsPending now v p =
        subst (λ (l : Limits). now < start + l.pending_session_ttl) (sym limits) live in
      let (t, found, valid', there) =
        live_handle h now p v valid (lookup-insert_self a v m.after.pending_sessions) refl
          in_time in
      let (g, t', w, promoted, stands, station_is, client_is, server_is) =
        promotes h now v t valid' there in
      (
        h,
        g,
        p,
        t',
        w,
        rw (e.runs, m.runs) refl,
        rw found promoted,
        stands,
        station_is,
        client_is,
        server_is,
      )
