-- ===== src/Server.antt =====
-- src/ftp_server.h and src/ftp_server.cpp: the thread that accepts connections, next to the one that
-- starts and stops the server. They share the status, with nothing that orders their steps.
pub mod Stopping
use ftps_server.Base.{take, Bool, true, false, ℕ, ◌≡◌, ◌≢◌, List, [], ◌∷◌, if◌then◌else◌, ℤ, pos}
use ftps_server.Text.{Bytes}
use ftps_server.Status.{is_success}
use ftps_server.Observer.{
  ObserveEvent, Notifier, new_notifier, register_observer, unregister_observer,
}
use ftps_server.Net.World.{Net, World}
use ftps_server.Net.Transport.{new_transport}
use ftps_server.Net.Endpoints.{Listener, new_listener, listener_on, bind, accept}
use ftps_server.Session.State.{Session, Indeterminate, new_session}

pub data ServerStatus : Type 0 where
  running stopping : ServerStatus

-- Where `server_thread` is: before its start, before `bind`, before the status is set, before its
-- test, in `accept`, behind its end, or ended by the exception.
pub data ThreadPoint : Type 0 where
  not_started binding announcing checking accepting finished failed : ThreadPoint

-- Where the thread that owns the server is: `joining` is in the call of `join`.
pub data OwnerPoint : Type 0 where
  free joining stopped : OwnerPoint

-- Where the thread of a session is: before its greeting, at its loop, or behind it.
pub data ClientPoint : Type 0 where
  greeting reading ended : ClientPoint

-- A session that the server holds, with its thread.
pub record Client : Type 0 where
  pub session : Session
  pub open session use *
  pub point : ClientPoint
  -- `client_message` of the thread
  pub buffer : Bytes

pub record Server (E : Type 0) : Type 0 where
  pub control_channel : Listener
  pub address : Bytes
  pub port : ℤ
  pub status : ServerStatus
  pub notifier : Notifier
  pub thread : ThreadPoint
  pub owner : OwnerPoint
  pub client_sessions : List Client
  pub world : World E

abbrev ftp_default_control_port : ℤ
ftp_default_control_port = pos 21

abbrev pub has_thrown : ThreadPoint → Bool
has_thrown failed = true
has_thrown _ = false

abbrev after_check : ServerStatus → ThreadPoint
after_check running = accepting
after_check stopping = finished

module _ {E : Type 0} where
  -- `start`: the new thread has made no step.
  abbrev pub start : Server E → Server E
  start s = record s { thread = binding }

  -- `stop` up to the call of `join`, and behind it.
  abbrev pub request_stop : Server E → Server E
  request_stop s = record s { status = stopping; owner = joining }

  abbrev pub join : Server E → Server E
  join s = record s { owner = stopped }

  abbrev pub register : ℕ → ObserveEvent → Server E → Server E
  register o e s = record s { notifier = (register_observer s.notifier o e).1 }

  abbrev pub unregister : ℕ → ObserveEvent → Server E → Server E
  unregister o e s = record s { notifier = (unregister_observer s.notifier o e).1 }

  unfoldable pub announce : Server E → Server E
  announce s = record s { status = running; thread = checking }

  -- The condition of the loop.
  unfoldable pub check : Server E → Server E
  check s = record s { thread = after_check s.status }

module _ {E : Type 0} (net : Net E) where
  abbrev pub new_server : Bytes → ℤ → World E → Server E
  new_server address port w =
      let (l, w1) = new_listener net w in
      record {
        control_channel = l;
        address = address;
        port = port;
        status = stopping;
        notifier = new_notifier;
        thread = not_started;
        owner = free;
        client_sessions = [];
        world = w1;
      }

  -- The constructor without a port.
  abbrev pub new_default_server : Bytes → World E → Server E
  new_default_server address w = new_server address ftp_default_control_port w

  -- The listener of the server, or the exception.
  unfoldable pub bind_address : Server E → Server E
  bind_address s =
      let (l, w1) = listener_on net s.address s.port (pos 10) s.world in
      let (result, w2) = bind net l w1 in
      record s {
        control_channel = l;
        world = w2;
        thread = if is_success result then announcing else failed;
      }

  -- The body of the loop: the result of `accept` is not looked at.
  unfoldable pub accept_client : Indeterminate → Server E → Server E
  accept_client junk s =
      let (t, w1) = new_transport net s.world in
      let (result, client, w2) = accept net s.control_channel t w1 in
      let (data_channel, w3) = new_transport net w2 in
      record s {
        client_sessions =
            record {
              session = new_session client data_channel junk;
              point = greeting;
              buffer = take 2000 junk.client_message;
            }
            ∷ s.client_sessions;
        world = w3;
        thread = checking;
      }

  -- The next step of `server_thread`.
  unfoldable pub server_thread : ThreadPoint → Indeterminate → Server E → Server E
  server_thread binding junk s = bind_address s
  server_thread announcing junk s = announce s
  server_thread checking junk s = check s
  server_thread accepting junk s = accept_client junk s
  server_thread _ junk s = s

  abbrev pub thread_step : Indeterminate → Server E → Server E
  thread_step junk s = server_thread s.thread junk s

  -- A step of the server's thread, or of its owner.
  pub data Step (s s' : Server E) : Type 0 where
    starts : s.thread ≡ not_started → s' ≡ start s → Step s s'
    runs : (junk : Indeterminate) → s' ≡ thread_step junk s → Step s s'
    stops : s.thread ≢ not_started → s.owner ≡ free → s' ≡ request_stop s → Step s s'
    joins : s.owner ≡ joining → s.thread ≡ finished → s' ≡ join s → Step s s'
    registers : (o : ℕ) (e : ObserveEvent) → s' ≡ register o e s → Step s s'
    unregisters : (o : ℕ) (e : ObserveEvent) → s' ≡ unregister o e s → Step s s'

  pub data Reach (s : Server E) : Server E → Type 0 where
    here : Reach s s
    next : {t u : Server E} → Reach s t → Step t u → Reach s u
