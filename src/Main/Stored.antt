-- ===== src/Main/Stored.antt =====
-- What the observer of the main program is told, and that the server goes on.
use ftps_server.Base.{true, false, inl, inr, ℕ, ◌≡◌, ◌≢◌, refl, ◌⊎◌, List, [], ◌∷◌, ◌++◌, arith, ok}
use ftps_server.Text.{Bytes, codes}
use ftps_server.Command.{Command, get_argument}
use ftps_server.Observer.{
  Notifier, file_put, notify_observers, same_event, register_observer, insert,
}
use ftps_server.FileSystem.Os.{Os}
use ftps_server.Net.World.{Net, NetCall, World, signalled}
use ftps_server.Session.State.{Session, Machine, Indeterminate, reply}
use ftps_server.Session.Transfer.{
  command_stor, receive, opened_file, is_binary, close_data, notify_put, signal_all,
}
use ftps_server.Server.{
  Server, running, ThreadPoint, binding, announcing, checking, accepting, finished, failed,
  has_thrown, server_thread, announce, check, accept_client, bind_address,
}
use ftps_server.System.{System, machine_of, RunStep, thread_runs, session_runs, session_throws}
use ftps_server.System.Ports.{session_step-KeepsShared}
use ftps_server.Main.{
  Main, MainPoint, constructed, started, waiting, new_main, MainStep, starts, registers, others,
  MainReach, here, next, printed, notify_signal,
}

-- What holds of the server of the main program.
pub record IsServing {E : Type 0} (s : Server E) : Type 0 where
  pub unfinished : s.thread ≢ finished
  pub looping : (s.status ≡ running) ⊎ ((s.thread ≢ checking) × (s.thread ≢ accepting))

-- As long as the process goes on, its server is serving, and the exception of its thread has not come.
abbrev pub GoesOn : {E F : Type 0} → System E F → Type 0
GoesOn s = IsServing s.server × ((s.crashed ≡ true) ⊎ (s.server.thread ≢ failed))

-- The observers of the main thread at a point.
abbrev pub observers : ℕ → MainPoint → Notifier
observers o constructed = []
observers o started = []
observers o waiting = (o, file_put) ∷ []

module _ {E F : Type 0} (net : Net E) (os : Os F) (observer : ℕ) where
  server_thread-IsServing :
      (junk : Indeterminate) (p : ThreadPoint) (s : Server E)
      → s.thread ≡ p
      → IsServing s
      → IsServing (server_thread net p junk s)
  unfolding server_thread check announce accept_client bind_address
  server_thread-IsServing junk binding s e h = ground arith
  server_thread-IsServing junk announcing s e h = ground arith
  server_thread-IsServing junk checking s e h = ground arith
  server_thread-IsServing junk accepting s e h = ground arith
  server_thread-IsServing junk _ s e h = h

  server_thread-notifier :
      (junk : Indeterminate) (p : ThreadPoint) (s : Server E)
      → (server_thread net p junk s).notifier ≡ s.notifier
  unfolding server_thread check announce accept_client bind_address
  server_thread-notifier junk binding s = refl
  server_thread-notifier junk announcing s = refl
  server_thread-notifier junk checking s = refl
  server_thread-notifier junk accepting s = refl
  server_thread-notifier junk _ s = refl

  RunStep-notifier : {s t : System E F} → RunStep net os s t → t.server.notifier ≡ s.server.notifier
  RunStep-notifier {s} (thread_runs junk n e) =
      rw e (server_thread-notifier junk s.server.thread s.server)
  RunStep-notifier {s} (session_runs i c message chunks p m n at_i did e) =
      let (_, same, _) =
        session_step-KeepsShared net os c.point p message c.buffer (machine_of s c.session chunks) m
          did in
      rw e same
  RunStep-notifier (session_throws i c message chunks f n at_i did x e) = rw e refl

  has_thrown-cases : (p : ThreadPoint) → (has_thrown p ≡ true) ⊎ (p ≢ failed)
  has_thrown-cases p = grind arith

  RunStep-GoesOn : {s t : System E F} → RunStep net os s t → GoesOn s → GoesOn t
  RunStep-GoesOn {s} (thread_runs junk n e) (h, g) = rw e (
    server_thread-IsServing junk s.server.thread s.server refl h,
    has_thrown-cases (server_thread net s.server.thread junk s.server).thread,
  )
  RunStep-GoesOn (session_runs i c message chunks p m n at_i did e) (h, g) =
      rw e (record { unfinished = h.unfinished; looping = h.looping }, g)
  RunStep-GoesOn (session_throws i c message chunks f n at_i did x e) (h, g) = rw e (h, inl refl)

  abbrev IsMain : Main E F → Type 0
  IsMain p = GoesOn p.system × (p.system.server.notifier ≡ observers observer p.point)

  MainStep-IsMain : {p q : Main E F} → MainStep net os observer p q → IsMain p → IsMain q
  unfolding register_observer insert
  MainStep-IsMain {p} (starts at_p n e) ((h, g), o) =
      rw e ((ground arith, inr (λ x. cc)), rw at_p at o)
  MainStep-IsMain {p} (registers at_p n e) ((h, g), o) =
      rw e ((ground arith, g), rw (rw at_p at o) refl)
  MainStep-IsMain {p} (others s st e) (h, o) =
      rw e (RunStep-GoesOn st h, rw (RunStep-notifier st) o)

  MainReach-IsMain : {p q : Main E F} → IsMain p → MainReach net os observer p q → IsMain q
  MainReach-IsMain h here = h
  MainReach-IsMain h (next r st) = MainStep-IsMain st (MainReach-IsMain h r)

  notify_put-signalled :
      (m : Machine E F) (path : Bytes)
      → m.notifier ≡ (observer, file_put) ∷ []
      → (calls : List NetCall) × ((notify_put path m).world.calls ≡ signalled observer path ∷ calls)
        × (printed observer (signalled observer path ∷ calls)
            ≡ printed observer calls ++ notify_signal path)
  unfolding notify_observers same_event signal_all printed
  notify_put-signalled m path h = (m.world.calls, rw h refl, ground arith)

  -- In the main program, once its observer is registered and as long as the process goes on, the
  -- handler of STOR of any session, whatever the other threads did before, tells the observer the path
  -- of the file as its last call, behind the end of the data, and the observer prints the line for it;
  -- and the thread of the server has neither ended nor thrown.
  pub command_stor-signalled :
      (w : World E) (f : F) {p : Main E F} (a : Session) (chunks later : List Bytes) (c : Command)
      (name : Bytes)
      → MainReach net os observer (new_main net w f) p
      → p.point ≡ waiting
      → p.system.crashed ≡ false
      → get_argument c 0 ≡ ok name
      → let path = a.folder ++ name in
        (m : Machine E F) × (command_stor os c (machine_of p.system a (chunks ++ [] ∷ later))
          ≡ ok m)
        × ((calls : List NetCall) × (m.world.calls ≡ signalled observer path ∷ calls)
            × (printed observer m.world.calls ≡ printed observer calls ++ notify_signal path))
        × (p.system.server.thread ≢ finished)
        × (p.system.server.thread ≢ failed)
  unfolding command_stor close_data
  command_stor-signalled w f {p} a chunks later c name r at_p alive e =
      let start : IsMain (new_main net w f) = ((ground arith, inr (λ x. cc)), refl) in
      let ((serving, thrown), o) = MainReach-IsMain start r in
      let m = machine_of p.system a (chunks ++ [] ∷ later) in
      let path = a.folder ++ name in
      let (is_open, f') =
        opened_file m.files (os.open_append m.files path (is_binary a.transfer_type)) in
      let m1 = reply (codes "150 STOR file status is OK\r\n") m in
      let (f'', rest) = receive os a.buffer_file_size is_open path m.incoming f' in
      let m2 = close_data (record m1 { files = f''; incoming = rest }) in
      let m3 = reply (codes "226 ASCII Transfer complete\r\n") m2 in
      let (calls, told, line) = notify_put-signalled m3 path (rw at_p at o) in
      (
        notify_put path m3,
        rw e refl,
        (calls, told, rw told line),
        serving.unfinished,
        elim thrown [ inl over ↦ absurd (let both : true ≡ false = cc in cc) | inr no_ ↦ no_ ],
      )
