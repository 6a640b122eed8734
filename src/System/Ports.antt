-- ===== src/System/Ports.antt =====
-- The accounts, the observers and the counter of ports along the rounds of a session.
use ftps_server.Base.{◌≡◌, refl, subst, arith, Result, ok, err, Bool-cases, inl, inr, ◌>>=◌}
use ftps_server.Text.{Bytes, is_empty}
use ftps_server.FileSystem.Os.{Os}
use ftps_server.Net.World.{Net}
use ftps_server.Session.State.{Machine, terminated, is_state}
use ftps_server.Session.Dispatch.{overwrite, handle_buffer, end_session}
use ftps_server.Session.Kept.{KeepsShared}
use ftps_server.Session.Shared.{SharesOn, handle_buffer-KeepsShared}
use ftps_server.Server.{ClientPoint, greeting, reading, ended}
use ftps_server.System.{read_message, session_step}

module _ {E F : Type 0} where
  abbrev SharesStep : Machine E F → Result (ClientPoint × Machine E F) → Type 0
  SharesStep m (ok (point, m')) = KeepsShared m m'
  SharesStep m (err f) = Unit

  handled :
      (m : Machine E F) (r : Result (Machine E F))
      → SharesOn m r
      → SharesStep m (r >>= λ m'. ok (reading, m'))
  handled m (ok m') k = k
  handled m (err f) k = tt

module _ {E F : Type 0} (net : Net E) (os : Os F) where
  read_message-SharesStep :
      (message buffer : Bytes) (m : Machine E F)
      → SharesStep m (read_message net os message buffer m)
  unfolding read_message end_session
  read_message-SharesStep message buffer m = elim (Bool-cases (is_state m.state terminated)) [
    | inl e ↦ rw e (refl, refl, omega arith)
    | inr e ↦ elim (Bool-cases (is_empty message)) [
      | inl f ↦ rw (e, f) (refl, refl, omega arith)
      | inr f ↦
          rw (e, f)
            (handled m (handle_buffer net os (overwrite buffer message) m)
              (handle_buffer-KeepsShared net os (overwrite buffer message) m))
    ]
  ]

  -- A step of a session keeps the accounts and the observers, and a round does not set the counter of
  -- ports back.
  pub session_step-SharesStep :
      (p : ClientPoint) (message buffer : Bytes) (m : Machine E F)
      → SharesStep m (session_step net os p message buffer m)
  unfolding session_step
  session_step-SharesStep greeting message buffer m = (refl, refl, omega arith)
  session_step-SharesStep reading message buffer m = read_message-SharesStep message buffer m
  session_step-SharesStep ended message buffer m = (refl, refl, omega arith)

  pub session_step-KeepsShared :
      (p q : ClientPoint) (message buffer : Bytes) (m m' : Machine E F)
      → session_step net os p message buffer m ≡ ok (q, m')
      → KeepsShared m m'
  session_step-KeepsShared p q message buffer m m' e =
      subst (SharesStep m) e (session_step-SharesStep p message buffer m)
