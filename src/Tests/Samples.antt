-- ===== src/Tests/Samples.antt =====
-- A small file system, a network on a counter, and a session on them.
use ftps_server.Base.{
  take, ℕ, suc, refl, Bool, true, false, List, [], ◌∷◌, ◌++◌, Option, none, some, if◌then◌else◌,
  leb, pos, negsuc, ltb_ℤ,
}
use ftps_server.Text.{Bytes, codes, equal, is_empty}
use ftps_server.FileSystem.Os.{Os, regular, directory, RefusesEmpty}
use ftps_server.Net.World.{Net, World}
use ftps_server.Net.Tls.{null_session}
use ftps_server.Net.Transport.{Transport}
use ftps_server.User.{initial_database}
use ftps_server.Observer.{file_put}
use ftps_server.Session.State.{Session, Machine, new_session, initial_data_port, clear}

-- The regular files; `/home` is the only directory.
abbrev pub Files : Type 0
Files = List Bytes

abbrev has : Files → Bytes → Bool
has [] p = false
has (q ∷ qs) p = if equal q p then true else has qs p

abbrev without : Files → Bytes → Files
without [] p = []
without (q ∷ qs) p = if equal q p then qs else q ∷ without qs p

abbrev is_home : Bytes → Bool
is_home p = if equal p (codes "/home") then true else equal p (codes "/home/")

abbrev if_has {ℓ} : {A : Type ℓ} → Files → Bytes → A → Option A
if_has f p a = if is_empty p then none else (if has f p then some a else none)

abbrev pub sample_os : Os Files
sample_os = record {
  realpath = λ f p. if is_home p then some (codes "/home") else if_has f p p;
  lstat = λ f p. if is_home p then some directory else if_has f p regular;
  readdir = λ f p. if is_home p then some (codes "b" ∷ codes "a" ∷ []) else none;
  rename = λ f p q. if_has f p (q ∷ without f p);
  remove = λ f p. if_has f p (without f p);
  read = λ f p. if_has f p (codes "text");
  write = λ f p content. if is_empty p then none else some (p ∷ f);
  open_append = λ f p binary. if is_empty p then none else some (p ∷ f);
  append = λ f p chunk. (p ++ chunk) ∷ f;
}

pub sample_os-RefusesEmpty : RefusesEmpty sample_os
unfolding equal
sample_os-RefusesEmpty = record {
  lstat_empty = λ f. refl;
  realpath_empty = λ f. refl;
  rename_empty = λ f new. refl;
  remove_empty = λ f. refl;
  write_empty = λ f content. refl;
}

-- Sockets are counted; the ports below 40152 are taken.
abbrev pub sample_net : Net ℕ
sample_net = record {
  socket = λ e. (pos e, suc e);
  getsockname = λ e fd. some (codes "127.0.0.1", 21);
  connect = λ e fd address port. (true, e);
  bind = λ e fd address port. (leb 40152 port, e);
  accept = λ e fd. (pos e, suc e);
  allocate = λ e. (e, suc e);
  key_files = λ e. true;
  handshakes = λ e session. (negsuc 0 ∷ pos 0 ∷ [], e);
  recv = λ e fd length. (take length (b'x' ∷ b'y' ∷ b'z' ∷ []), suc e);
  record_recv = λ e session length. ([], e);
  is_fatal = λ r. ltb_ℤ r (negsuc 0);
}

abbrev pub sample_transport : ℕ → Transport
sample_transport fd = record {
  socket = pos fd;
  session = null_session;
  secure = false;
  address = codes "127.0.0.1";
  port = pos 21;
}

abbrev pub sample_world : World ℕ
sample_world = record { env = 10; calls = []; tls_initialized = true }

abbrev pub sample_session : Session
sample_session = new_session (sample_transport 4) (sample_transport 5) (record {
  buffer_file_size = pos 0;
  protection_buffer_size = pos 0;
  protection_level = clear;
  client_message = [];
})

abbrev pub sample_files : Files
sample_files = codes "/home/a" ∷ []

abbrev pub sample : Machine ℕ Files
sample = record {
  session = sample_session;
  world = sample_world;
  files = sample_files;
  users = initial_database;
  notifier = (7, file_put) ∷ [];
  data_port = initial_data_port;
  incoming = [];
}
