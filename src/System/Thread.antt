-- ===== src/System/Thread.antt =====
-- The thread of a session as a whole, and as steps of the program.
pub mod Rounds
use ftps_server.Base.{
  ℕ, zero, suc, ◌≡◌, refl, ap, ◌∙◌, true, false, List, [], ◌∷◌, ◌++◌, subst, some, get_elem?,
  Result, ok, err, ◌>>=◌, Bool-cases, inl, inr, >>=-eq-ok,
}
use ftps_server.Text.{Bytes, codes}
use ftps_server.FileSystem.Os.{Os}
use ftps_server.Net.World.{Net}
use ftps_server.Session.State.{Machine, terminated, is_state, reply}
use ftps_server.Session.Dispatch.{
  overwrite, handle_buffer, end_session, session_loop, client_session_thread,
}
use ftps_server.Server.{Client, ClientPoint, greeting, reading, ended}
use ftps_server.System.{
  System, set_at, machine_of, with_machine, read_message, session_step, next_buffer, session_runs,
  runs, RunReach, SystemReach,
}
use ftps_server.System.Thread.Rounds.{rounds, rounds-greeting, rounds-session_loop, finish-ok}

module _ {ℓ} {A : Type ℓ} where
  pub get_elem?-set_at :
      (i : ℕ) (a b : A) (l : List A) → get_elem? l i ≡ some b → get_elem? (set_at i a l) i ≡ some a
  unfolding set_at
  get_elem?-set_at i a b [] e = cc
  get_elem?-set_at zero a b (x ∷ l) e = refl
  get_elem?-set_at (suc i) a b (x ∷ l) e = get_elem?-set_at i a b l e

  set_at_same : (i : ℕ) (a : A) (l : List A) → get_elem? l i ≡ some a → set_at i a l ≡ l
  unfolding set_at
  set_at_same i a [] e = refl
  set_at_same zero a (x ∷ l) e = let same : a ≡ x = cc in ap (λ (y : A). y ∷ l) same
  set_at_same (suc i) a (x ∷ l) e = ap (◌∷◌ x) (set_at_same i a l e)

  set_at_twice : (i : ℕ) (a b : A) (l : List A) → set_at i a (set_at i b l) ≡ set_at i a l
  unfolding set_at
  set_at_twice i a b [] = refl
  set_at_twice zero a b (x ∷ l) = refl
  set_at_twice (suc i) a b (x ∷ l) = ap (◌∷◌ x) (set_at_twice i a b l)

module _ {E F : Type 0} (net : Net E) (os : Os F) where
  with_machine_twice :
      (s : System E F) (i : ℕ) (point : ClientPoint) (b : Bytes) (m : Machine E F)
      (point1 : ClientPoint) (b1 : Bytes) (m1 : Machine E F)
      → with_machine s i point1 b1 m1 ≡ with_machine (with_machine s i point b m) i point1 b1 m1
  with_machine_twice s i point b m point1 b1 m1 =
      rw
        (set_at_twice i (record { session = m1.session; point = point1; buffer = b1 })
          (record { session = m.session; point = point; buffer = b }) s.server.client_sessions)
        refl

  with_machine_same :
      (s : System E F) (i : ℕ) (c : Client) (chunks : List Bytes)
      → get_elem? s.server.client_sessions i ≡ some c
      → with_machine s i c.point c.buffer (machine_of s c.session chunks) ≡ s
  with_machine_same s i c chunks e = rw (set_at_same i c s.server.client_sessions e) refl

  pub RunReach-SystemReach : {s t : System E F} → RunReach net os s t → SystemReach net os s t
  RunReach-SystemReach RunReach.here = SystemReach.here
  RunReach-SystemReach (RunReach.next r st) = SystemReach.next (RunReach-SystemReach r) (runs st)

  -- The system behind steps of one session, with what the buffer holds then.
  RunReach-rounds :
      (s : System E F) (i : ℕ) (c : Client) (messages : List Bytes) (buffer : Bytes)
      (point point' : ClientPoint) (m m' : Machine E F)
      → s.crashed ≡ false
      → get_elem? s.server.client_sessions i ≡ some c
      → RunReach net os s (with_machine s i point buffer m)
      → rounds net os point messages buffer m ≡ ok (point', m')
      → (b : Bytes) × RunReach net os s (with_machine s i point' b m')
  unfolding rounds
  RunReach-rounds s i c [] buffer point point' m m' n at_i r e =
      let same : ◌≡◌ {A = ClientPoint × Machine E F} (point, m) (point', m') = cc in
      (buffer, subst (λ x. RunReach net os s (with_machine s i x.0 buffer x.1)) same r)
  RunReach-rounds s i c (message ∷ messages) buffer point point' m m' n at_i r e =
      let b = next_buffer point message buffer in
      let ((point1, m1), did, rest) =
        >>=-eq-ok (session_step net os point message buffer m)
          (λ (x : ClientPoint × Machine E F). rounds net os x.0 messages b x.1) e in
      let c1 : Client = record { session = m.session; point = point; buffer = buffer } in
      RunReach-rounds s i c messages b point1 point' m1 m' n at_i
        (RunReach.next r (
          session_runs i c1 message m.incoming point1 m1 n
            (get_elem?-set_at i c1 c s.server.client_sessions at_i) did
            (with_machine_twice s i point buffer m point1 b m1)))
        rest

  -- What the thread of a session does on its own is a run of the program: where the process has not
  -- ended and a session is at its start, and its thread, run as a whole on messages whose end comes
  -- and with what its buffer holds, returns, steps of the program lead to the session's end with the
  -- session that the thread returns, and with its files, accounts, counter of ports and calls.
  pub client_session_thread-SystemReach :
      (s : System E F) (i : ℕ) (c : Client) (messages chunks : List Bytes) {m : Machine E F}
      → s.crashed ≡ false
      → get_elem? s.server.client_sessions i ≡ some c
      → c.point ≡ greeting
      → client_session_thread net os (messages ++ [] ∷ []) c.buffer (machine_of s c.session chunks)
        ≡ ok m
      → (buffer : Bytes) × SystemReach net os s (with_machine s i ended buffer m)
  unfolding client_session_thread
  client_session_thread-SystemReach s i c messages chunks {m} n at_i p e =
      let m0 = machine_of s c.session chunks in
      let m1 = reply (codes "220 FTP server is ready\r\n") m0 in
      let more = messages ++ [] ∷ [] in
      let start : RunReach net os s (with_machine s i c.point c.buffer m0) =
        rw (with_machine_same s i c chunks at_i) RunReach.here in
      let (b, r) = RunReach-rounds s i c ([] ∷ more) c.buffer c.point ended m0 m n at_i start (
        rw p (
          rounds-greeting net os more c.buffer m0
          ∙ rounds-session_loop net os messages c.buffer m1
          ∙ finish-ok net os (session_loop net os more c.buffer m1) m e)) in
      (b, RunReach-SystemReach r)
