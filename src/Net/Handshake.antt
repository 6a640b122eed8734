-- ===== src/Net/Handshake.antt =====
-- When the loop of a handshake ends.
use ftps_server.Base.{
  ◌≡◌, refl, Bool, true, false, not, ◌&&◌, List, [], ◌∷◌, ◌++◌, none, All, ℤ, pos, if◌then◌else◌,
  ltb_ℤ, ok,
}
use ftps_server.Net.World.{Net, World, session_freed}
use ftps_server.Net.Tls.{TlsSession, handshake_loop, handshake, free_with}

-- A result that asks for another call.
abbrev pub asks_again : (ℤ → Bool) → ℤ → Bool
asks_again fatal r = ltb_ℤ r (pos 0) && not (fatal r)

handshake_loop-ends :
    (fatal : ℤ → Bool) (again later : List ℤ) (r : ℤ)
    → All (λ q. asks_again fatal q ≡ true) again
    → asks_again fatal r ≡ false
    → handshake_loop fatal (again ++ r ∷ later) ≡ ok r
unfolding handshake_loop
handshake_loop-ends fatal [] later r h e = rw e refl
handshake_loop-ends fatal (q ∷ again) later r h e =
    rw (h.0) (handshake_loop-ends fatal again later r h.1 e)

module _ {E : Type 0} (net : Net E) where
  -- A handshake returns after any number of results that ask for another call, with the first one that
  -- does not: an error, which is fatal then, gives up the session object and frees it, and any other
  -- result makes the session one that is ready.
  handshake-ends :
      (s : TlsSession) (w : World E) (again later : List ℤ) (r : ℤ) (env' : E)
      → net.handshakes w.env s.session ≡ (again ++ r ∷ later, env')
      → All (λ q. asks_again net.is_fatal q ≡ true) again
      → asks_again net.is_fatal r ≡ false
      → handshake net s w
        ≡ ok (
            if ltb_ℤ r (pos 0)
            then (
              false,
              record s { session = none },
              free_with session_freed s.session (record w { env = env' }),
            )
            else (true, s, record w { env = env' }))
  unfolding handshake
  handshake-ends s w again later r env' e h f =
      rw (e, handshake_loop-ends net.is_fatal again later r h f) refl
