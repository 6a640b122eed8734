-- ===== src/Net/Lifecycle.antt =====
-- The objects of GnuTLS over the life of a channel: TLS on it, its close and its destructor.
use ftps_server.Base.{
  ℕ, ◌+◌, ◌≡◌, ◌≤◌, refl, Bool, true, Option, inl, inr, pos, ltb_ℤ, false, none, if◌then◌else◌,
  arith, ok, Result, ℤ, Bool-cases, subst, err, >>=-eq-ok,
}
use ftps_server.Net.World.{Net, World, session_freed}
use ftps_server.Status.{is_success, of_bool}
use ftps_server.Net.Tls.{
  null_session, free_with, create_tls_session, handshake, handshake_loop, TlsSession,
  free_tls_session, close_session,
}
use ftps_server.Net.Transport.{Transport, set_tls, close, destroy_transport}
use ftps_server.Net.Balance.{
  Balanced, holds, free_tls_session-Balanced, create_tls_session-Balanced, handshake-Balanced,
}

module _ {E : Type 0} where
  -- The destructor of a channel frees what its session holds, once.
  pub destroy_transport-Balanced :
      (t : Transport) (w : World E) (n : ℕ)
      → Balanced w (n + holds t.session)
      → Balanced (destroy_transport t w).1 n
  destroy_transport-Balanced t w n b = (free_tls_session-Balanced t.session w n b).1

  -- So it does behind `close`, which ends the session of a secure channel only.
  pub close-Balanced :
      (t : Transport) (w : World E) (n : ℕ)
      → Balanced w (n + holds t.session)
      → let (t', w') = close t w in Balanced w' (n + holds t'.session)
  unfolding close close_session free_tls_session
  close-Balanced t w n b = ground arith

module _ {E : Type 0} (net : Net E) where
  -- What nothing frees of a call of `set_tls` on a channel with no session: the priority, if the session is made.
  abbrev pub lost_by : World E → ℕ
  lost_by w = if is_success (create_tls_session net null_session w).0 then 1 else 0

  -- The account of a channel that a call returns.
  abbrev Keeps : ℕ → Result (ℤ × Transport × World E) → Type 0
  Keeps n (ok (r, t, w)) = Balanced w (n + holds t.session)
  Keeps n (err f) = Unit

  -- A handshake keeps the account of the session that is made.
  pub set_tls-Balanced :
      (t : Transport) (w : World E) (n : ℕ) {r : ℤ} {t' : Transport} {w' : World E}
      → let (_, s1, w1) = create_tls_session net t.session w in
        Balanced w1 (n + holds s1)
        → set_tls net t w ≡ ok (r, t', w')
        → Balanced w' (n + holds t'.session)
  unfolding set_tls
  set_tls-Balanced t w n b s =
      let (created, s1, w1) = create_tls_session net t.session w in
      elim (Bool-cases (is_success created)) [
        | inl made ↦
            let ((done, s2, w2), h, e) = >>=-eq-ok (handshake net s1 w1) _ (rw made at s) in
            subst (Keeps n) e (handshake-Balanced net s1 w1 n b h)
        | inr failed ↦ subst (Keeps n) (rw failed at s) b
      ]

  -- On a channel that has no session yet, wherever `set_tls` returns, also with a failure: behind the
  -- destructor of the channel as many objects are freed as were allocated, but for one, the priority,
  -- if the session was made; so it is too if the channel is closed before, once or twice.
  pub set_tls-destroyed :
      (t : Transport) (w : World E) (n : ℕ) {r : ℤ} {t' : Transport} {w' : World E}
      → t.session ≡ null_session
      → Balanced w n
      → set_tls net t w ≡ ok (r, t', w')
      → let (t1, w1) = close t' w' in
        let (t2, w2) = close t1 w1 in
        Balanced (destroy_transport t' w').1 (n + lost_by w)
        × Balanced (destroy_transport t1 w1).1 (n + lost_by w)
        × Balanced (destroy_transport t2 w2).1 (n + lost_by w)
  set_tls-destroyed t w n {r} {t'} {w'} e b s =
      let m = n + lost_by w in
      let (t1, w1) = close t' w' in
      let (t2, w2) = close t1 w1 in
      let (_, s0, w0) = create_tls_session net t.session w in
      let made : Balanced w0 (m + holds s0) =
        rw e (omega (arith, create_tls_session-Balanced net w n b)) in
      let b0 = set_tls-Balanced t w m made s in
      let b1 = close-Balanced t' w' m b0 in
      let b2 = close-Balanced t1 w1 m b1 in
      (
        destroy_transport-Balanced t' w' m b0,
        destroy_transport-Balanced t1 w1 m b1,
        destroy_transport-Balanced t2 w2 m b2,
      )

-- The certificate and the key of the server load.
abbrev pub LoadsKeys : {E : Type 0} → Net E → Type 0
LoadsKeys {E} net = (env : E) → net.key_files env ≡ true

-- No handshake goes on for ever.
abbrev pub EndsHandshakes : {E : Type 0} → Net E → Type 0
EndsHandshakes {E} net =
    (env : E) (s : Option ℕ)
    → (r : ℤ) × (handshake_loop net.is_fatal (net.handshakes env s).0 ≡ ok r)

-- A session that gives up its session object.
gives_up :
    {E : Type 0} (s : TlsSession) (w : World E) (n : ℕ)
    → Balanced w (n + holds s)
    → holds s ≡ 3
    → let s' = record s { session = none } in
      Balanced (free_with session_freed s.session w) (n + holds s')
      × (2 ≤ holds s')
      × (holds s' ≤ 3)
gives_up s w n b h = ground arith

module _ {E : Type 0} (net : Net E) (keys : LoadsKeys net) (ends : EndsHandshakes net) where
  -- Behind the creation of a session over another one, the objects of the other one are lost.
  create_tls_session-again :
      (s : TlsSession) (w : World E) (n : ℕ)
      → Balanced w (n + holds s)
      → let (r, s', w') = create_tls_session net s w in
        (is_success r ≡ true) × (holds s' ≡ 3) × Balanced w' (n + holds s + 1 + holds s')
  unfolding create_tls_session
  create_tls_session-again s w n b = rw (keys (net.allocate w.env).1) (refl, refl, omega (arith, b))

  -- A handshake over a whole session returns, and gives up its session object at most.
  handshake-returns :
      (s : TlsSession) (w : World E) (n : ℕ)
      → Balanced w (n + holds s)
      → holds s ≡ 3
      → (done : Bool) × (s' : TlsSession) × (w' : World E) × (handshake net s w ≡ ok (done, s', w'))
        × Balanced w' (n + holds s')
        × (2 ≤ holds s')
        × (holds s' ≤ 3)
  unfolding handshake
  handshake-returns s w n b h =
      let (r, e) = ends w.env s.session in
      let (results, env') = net.handshakes w.env s.session in
      let w1 = record w { env = env' } in
      elim (Bool-cases (ltb_ℤ r (pos 0))) [
        | inl fatal ↦
            let (b1, low, high) = gives_up s w1 n b h in
            (
              false,
              record s { session = none },
              free_with session_freed s.session w1,
              rw (e, fatal) refl,
              b1,
              low,
              high,
            )
        | inr fine ↦ (true, s, w1, rw (e, fine) refl, b, omega (arith, h), omega (arith, h))
      ]

  -- `set_tls` on any channel returns, and loses all that the session of the channel held, and the
  -- priority of the new one.
  pub set_tls-again :
      (t : Transport) (w : World E) (n : ℕ)
      → Balanced w (n + holds t.session)
      → (r : ℤ) × (t' : Transport) × (w' : World E) × (set_tls net t w ≡ ok (r, t', w'))
        × Balanced w' (n + holds t.session + 1 + holds t'.session)
        × (2 ≤ holds t'.session)
        × (holds t'.session ≤ 3)
  unfolding set_tls
  set_tls-again t w n b =
      let (_, s1, w1) = create_tls_session net t.session w in
      let (made, whole, b1) = create_tls_session-again t.session w n b in
      let (done, s2, w2, did, b2, low, high) =
        handshake-returns s1 w1 (n + holds t.session + 1) b1 whole in
      (
        of_bool done,
        record t { session = s2; secure = done },
        w2,
        rw (made, did) refl,
        b2,
        low,
        high,
      )
