-- ===== src/System.antt =====
-- The whole program: the server and the threads of its sessions, which share the file system, the
-- accounts, the observers, the counter of ports and the process.
pub mod Safety
pub mod Crash
pub mod Lines
pub mod Erased
pub mod Replaced
pub mod Ports
pub mod Thread
pub mod Race
use ftps_server.Base.{
  ℕ, zero, suc, ◌≡◌, Bool, true, false, List, [], ◌∷◌, some, get_elem?, if◌then◌else◌, Result, ok,
  err, Fault, invalid_argument, out_of_range, ◌>>=◌, ℤ,
}
use ftps_server.Text.{Bytes, codes, is_empty}
use ftps_server.User.{Database, initial_database}
use ftps_server.FileSystem.Os.{Os}
use ftps_server.Net.World.{Net, World}
use ftps_server.Session.State.{
  Session, Machine, Indeterminate, initial_data_port, terminated, is_state, reply,
}
use ftps_server.Session.Dispatch.{overwrite, handle_buffer, end_session}
use ftps_server.Server.{
  has_thrown, Server, Client, ClientPoint, greeting, reading, ended, Step, thread_step, new_server,
}

-- `crashed`: the process has ended by an exception that nothing catches.
pub record System (E F : Type 0) : Type 0 where
  pub server : Server E
  pub files : F
  pub users : Database
  pub data_port : ℕ
  pub crashed : Bool

-- The thread of the server has ended by its exception.
abbrev pub has_failed : {E : Type 0} → Server E → Bool
has_failed s = has_thrown s.thread

-- The system behind a step of the server: the exception of its thread, which nothing catches, ends the
-- process.
abbrev pub with_server : {E F : Type 0} → System E F → Server E → System E F
with_server s server = record s { server = server; crashed = has_failed server }

-- A list with another element at an index.
unfoldable pub set_at {ℓ} : {A : Type ℓ} → ℕ → A → List A → List A
set_at i a [] = []
set_at zero a (x ∷ xs) = a ∷ xs
set_at (suc i) a (x ∷ xs) = x ∷ set_at i a xs

-- The exceptions of the standard library.
abbrev pub is_exception : Fault → Bool
is_exception invalid_argument = true
is_exception out_of_range = true
is_exception _ = false

-- The buffer of a session behind a round: `pull` puts a message into it.
abbrev pub next_buffer : ClientPoint → Bytes → Bytes → Bytes
next_buffer reading message buffer = overwrite buffer message
next_buffer _ message buffer = buffer

module _ {E F : Type 0} where
  -- What a session's thread sees: its own session and what all share. `chunks` is what comes on its data
  -- channel.
  abbrev pub machine_of : System E F → Session → List Bytes → Machine E F
  machine_of s session chunks = record {
    session = session;
    world = s.server.world;
    files = s.files;
    users = s.users;
    notifier = s.server.notifier;
    data_port = s.data_port;
    incoming = chunks;
  }

  -- The system behind a step of the session with an index.
  abbrev pub with_machine : System E F → ℕ → ClientPoint → Bytes → Machine E F → System E F
  with_machine s i point buffer m = record s {
    server = record s.server {
      world = m.world;
      notifier = m.notifier;
      client_sessions =
          set_at i (record { session = m.session; point = point; buffer = buffer })
            s.server.client_sessions;
    };
    files = m.files;
    users = m.users;
    data_port = m.data_port;
  }

-- Before any step: a server behind its constructor, and what the statics are.
abbrev pub system_of : {E F : Type 0} → Server E → F → System E F
system_of server f = record {
  server = server;
  files = f;
  users = initial_database;
  data_port = initial_data_port;
  crashed = false;
}

module _ {E F : Type 0} (net : Net E) where
  abbrev pub new_system : Bytes → ℤ → World E → F → System E F
  new_system address port w f = system_of (new_server net address port w) f

module _ {E F : Type 0} (net : Net E) (os : Os F) where
  -- One round of the loop of a session: the message that `pull` gives, in the buffer.
  unfoldable pub read_message : Bytes → Bytes → Machine E F → Result (ClientPoint × Machine E F)
  read_message message buffer m =
      let next_round =
        handle_buffer net os (overwrite buffer message) m >>= λ m'. ok (reading, m') in
      if is_state m.state terminated
      then ok (ended, end_session m)
      else (if is_empty message then ok (ended, end_session m) else next_round)

  -- The next step of `client_session_thread`.
  unfoldable pub session_step :
      ClientPoint → Bytes → Bytes → Machine E F → Result (ClientPoint × Machine E F)
  session_step greeting message buffer m =
      ok (reading, reply (codes "220 FTP server is ready\r\n") m)
  session_step reading message buffer m = read_message message buffer m
  session_step ended message buffer m = ok (ended, m)

  -- A step without the owner of the server: of the server's thread, or of a session's thread, whose
  -- message and data are what its channels give then, which may be anything here; an exception in it
  -- ends the process.
  pub data RunStep (s s' : System E F) : Type 0 where
    thread_runs :
        (junk : Indeterminate)
        → s.crashed ≡ false
        → s' ≡ with_server s (thread_step net junk s.server)
        → RunStep s s'
    session_runs :
        (i : ℕ) (c : Client) (message : Bytes) (chunks : List Bytes) (point : ClientPoint)
        (m : Machine E F)
        → s.crashed ≡ false
        → get_elem? s.server.client_sessions i ≡ some c
        → session_step c.point message c.buffer (machine_of s c.session chunks) ≡ ok (point, m)
        → s' ≡ with_machine s i point (next_buffer c.point message c.buffer) m
        → RunStep s s'
    session_throws :
        (i : ℕ) (c : Client) (message : Bytes) (chunks : List Bytes) (f : Fault)
        → s.crashed ≡ false
        → get_elem? s.server.client_sessions i ≡ some c
        → session_step c.point message c.buffer (machine_of s c.session chunks) ≡ err f
        → is_exception f ≡ true
        → s' ≡ record s { crashed = true }
        → RunStep s s'

  pub data RunReach (s : System E F) : System E F → Type 0 where
    here : RunReach s s
    next : {t u : System E F} → RunReach s t → RunStep t u → RunReach s u

  -- A step of anyone: the owner starts, stops and observes the server.
  pub data SystemStep (s s' : System E F) : Type 0 where
    runs : RunStep s s' → SystemStep s s'
    owner_acts :
        (t : Server E)
        → s.crashed ≡ false
        → Step net s.server t
        → s' ≡ with_server s t
        → SystemStep s s'

  pub data SystemReach (s : System E F) : System E F → Type 0 where
    here : SystemReach s s
    next : {t u : System E F} → SystemReach s t → SystemStep t u → SystemReach s u
