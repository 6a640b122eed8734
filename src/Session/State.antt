-- ===== src/Session/State.antt =====
-- The state of a session, and the objects that it shares with the rest of the server.
use ftps_server.Base.{ℕ, Bool, true, false, List, [], ℤ}
use ftps_server.Text.{Bytes}
use ftps_server.User.{User, Database, empty_user}
use ftps_server.Observer.{Notifier}
use ftps_server.Net.World.{World}
use ftps_server.Net.Transport.{Transport, move_construct, push}

pub data SessionState : Type 0 where
  wait_login wait_password auth_success data_action terminated : SessionState

pub data TransferType : Type 0 where
  binary ascii : TransferType

pub data ProtectionLevel : Type 0 where
  clear safe confidential private : ProtectionLevel

-- The members of `ftp_session`; `m_notifier` points to the server's notifier, in `Machine`.
pub record Session : Type 0 where
  pub user : User
  pub folder : Bytes
  pub transfer_type : TransferType
  pub state : SessionState
  pub argument : Bytes
  pub control_channel : Transport
  pub data_channel : Transport
  pub buffer_file_size : ℤ
  pub auth_attempt : ℕ
  pub protection_buffer_size : ℤ
  pub protection_level : ProtectionLevel

-- `files` is the state of the file systems, `data_port` the static `DATA_PORT_ALLOCATION`, and
-- `incoming` what the next calls of `pull` on the data channel give, an empty list the end of it.
pub record Machine (E F : Type 0) : Type 0 where
  pub session : Session
  pub open session use *
  pub world : World E
  pub files : F
  pub users : Database
  pub notifier : Notifier
  pub data_port : ℕ
  pub incoming : List Bytes

abbrev pub max_auth_attempts : ℕ
max_auth_attempts = 3

abbrev pub initial_data_port : ℕ
initial_data_port = 40150

-- What the constructor, and the thread, leave as they find it.
pub record Indeterminate : Type 0 where
  pub buffer_file_size : ℤ
  pub protection_buffer_size : ℤ
  pub protection_level : ProtectionLevel
  -- the buffer on the stack of the thread
  pub client_message : Bytes

-- The constructor on a control channel; `data` is the default `tcp_client`.
abbrev pub new_session : Transport → Transport → Indeterminate → Session
new_session control data_channel junk = record {
  user = empty_user;
  folder = [];
  transfer_type = binary;
  state = wait_login;
  argument = [];
  control_channel = (move_construct control).0;
  data_channel = data_channel;
  buffer_file_size = junk.buffer_file_size;
  auth_attempt = 0;
  protection_buffer_size = junk.protection_buffer_size;
  protection_level = junk.protection_level;
}

-- The move constructor: it takes the user and the folder; the channels are new ones, the argument is
-- empty, and the other members are what they are.
abbrev pub move_construct_session : Session → Transport → Transport → Session → Session
move_construct_session other control data_channel junk = record junk {
  user = other.user;
  folder = other.folder;
  argument = [];
  control_channel = control;
  data_channel = data_channel;
}

unfoldable pub is_state : SessionState → SessionState → Bool
is_state wait_login wait_login = true
is_state wait_password wait_password = true
is_state auth_success auth_success = true
is_state data_action data_action = true
is_state terminated terminated = true
is_state _ _ = false

module _ {E F : Type 0} where
  -- `m_control_channel.push(...)`.
  abbrev pub reply : Bytes → Machine E F → Machine E F
  reply message m = record m { world = push m.control_channel message m.world }

  abbrev pub update : (Session → Session) → Machine E F → Machine E F
  update f m = record m { session = f m.session }

  abbrev pub with_state : SessionState → Machine E F → Machine E F
  with_state s = update (λ x. record x { state = s })
