-- ===== src/System/Thread/Rounds.antt =====
-- The loop of a session's thread, and the steps of the session one after the other.
use ftps_server.Base.{
  ℕ, ◌≡◌, refl, ◌∙◌, true, false, List, [], ◌∷◌, ◌++◌, Result, ok, err, ◌>>=◌, Bool-cases, inl, inr,
}
use ftps_server.Text.{Bytes, codes}
use ftps_server.FileSystem.Os.{Os}
use ftps_server.Net.World.{Net}
use ftps_server.Session.State.{Machine, terminated, is_state, reply}
use ftps_server.Session.Dispatch.{overwrite, handle_buffer, end_session, session_loop}
use ftps_server.Server.{ClientPoint, greeting, reading, ended}
use ftps_server.System.{read_message, session_step, next_buffer}

module _ {E F : Type 0} (net : Net E) (os : Os F) where
  -- The steps of one session, one after the other, with a message for each.
  unfoldable pub rounds :
      ClientPoint → List Bytes → Bytes → Machine E F → Result (ClientPoint × Machine E F)
  rounds point [] buffer m = ok (point, m)
  rounds point (message ∷ messages) buffer m =
      session_step net os point message buffer m >>= λ (point', m').
      rounds point' messages (next_buffer point message buffer) m'

  rounds-ended :
      (messages : List Bytes) (buffer : Bytes) (m : Machine E F)
      → rounds ended messages buffer m ≡ ok (ended, m)
  unfolding rounds session_step
  rounds-ended [] buffer m = refl
  rounds-ended (message ∷ messages) buffer m = rounds-ended messages buffer m

  abbrev pub finish : Result (Machine E F) → Result (ClientPoint × Machine E F)
  finish r = r >>= λ m. ok (ended, end_session m)

  read_message-empty :
      (buffer : Bytes) (m : Machine E F)
      → read_message net os [] buffer m ≡ ok (ended, end_session m)
  unfolding read_message
  read_message-empty buffer m = elim (Bool-cases (is_state m.state terminated)) [
    | inl e ↦ rw (e, read_message) refl
    | inr e ↦ rw (e, read_message) refl
  ]

  -- A round that ends the session, and one that goes on.
  rounds-end :
      (message buffer : Bytes) (messages : List Bytes) (m m' : Machine E F)
      → read_message net os message buffer m ≡ ok (ended, m')
      → rounds reading (message ∷ messages) buffer m ≡ ok (ended, m')
  unfolding rounds session_step
  rounds-end message buffer messages m m' e =
      rw e (rounds-ended messages (overwrite buffer message) m')

  rounds-more :
      (r : Result (Machine E F)) (messages : List Bytes) (buffer : Bytes)
      → ((m : Machine E F)
          → rounds reading messages buffer m ≡ finish (session_loop net os messages buffer m))
      → ((r >>= λ m. ok (reading, m)) >>= λ (point, m). rounds point messages buffer m)
        ≡ finish (r >>= λ m. session_loop net os messages buffer m)
  rounds-more (ok m) messages buffer h = h m
  rounds-more (err f) messages buffer h = refl

  rounds-terminated :
      (c : ℕ) (cs buffer : Bytes) (messages : List Bytes) (m : Machine E F)
      → is_state m.state terminated ≡ true
      → rounds reading ((c ∷ cs) ∷ messages) buffer m
        ≡ finish (session_loop net os ((c ∷ cs) ∷ messages) buffer m)
  unfolding session_loop read_message
  rounds-terminated c cs buffer messages m e =
      rw e (rounds-end (c ∷ cs) buffer messages m (end_session m) (rw (e, read_message) refl))

  rounds-live :
      (c : ℕ) (cs buffer : Bytes) (messages : List Bytes) (m : Machine E F)
      → is_state m.state terminated ≡ false
      → rounds reading ((c ∷ cs) ∷ messages) buffer m ≡ (
          (handle_buffer net os (overwrite buffer (c ∷ cs)) m >>= λ m'. ok (reading, m'))
          >>= λ (point, m'). rounds point messages (overwrite buffer (c ∷ cs)) m')
  unfolding rounds session_step read_message
  rounds-live c cs buffer messages m e = rw (e, read_message) refl

  session_loop-live :
      (c : ℕ) (cs buffer : Bytes) (messages : List Bytes) (m : Machine E F)
      → is_state m.state terminated ≡ false
      → session_loop net os ((c ∷ cs) ∷ messages) buffer m ≡ (
          handle_buffer net os (overwrite buffer (c ∷ cs)) m >>= λ m'.
          session_loop net os messages (overwrite buffer (c ∷ cs)) m')
  unfolding session_loop
  session_loop-live c cs buffer messages m e = rw e refl

  pub rounds-session_loop :
      (messages : List Bytes) (buffer : Bytes) (m : Machine E F)
      → rounds reading (messages ++ [] ∷ []) buffer m
        ≡ finish (session_loop net os (messages ++ [] ∷ []) buffer m)
  rounds-session_loop [] buffer m =
      rounds-end [] buffer [] m (end_session m) (read_message-empty buffer m)
      ∙ unfold session_loop in refl
  rounds-session_loop ([] ∷ messages) buffer m =
      rounds-end [] buffer (messages ++ [] ∷ []) m (end_session m) (read_message-empty buffer m)
      ∙ unfold session_loop in refl
  rounds-session_loop ((c ∷ cs) ∷ messages) buffer m =
      let later = rounds-session_loop messages (overwrite buffer (c ∷ cs)) in
      let more = messages ++ [] ∷ [] in
      elim (Bool-cases (is_state m.state terminated)) [
        | inl e ↦ rounds-terminated c cs buffer more m e
        | inr e ↦ rw (session_loop-live c cs buffer more m e) (
            rounds-live c cs buffer more m e
            ∙ rounds-more (handle_buffer net os (overwrite buffer (c ∷ cs)) m) more
                (overwrite buffer (c ∷ cs)) later)
      ]

  pub rounds-greeting :
      (messages : List Bytes) (buffer : Bytes) (m : Machine E F)
      → rounds greeting ([] ∷ messages) buffer m
        ≡ rounds reading messages buffer (reply (codes "220 FTP server is ready\r\n") m)
  unfolding rounds session_step
  rounds-greeting messages buffer m = refl

  pub finish-ok :
      (r : Result (Machine E F)) (m : Machine E F)
      → (r >>= λ m'. ok (end_session m')) ≡ ok m
      → finish r ≡ ok (ended, m)
  finish-ok (ok m') m e = let same : end_session m' ≡ m = cc in rw same refl
  finish-ok (err f) m e = cc
