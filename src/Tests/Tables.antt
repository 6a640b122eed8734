-- ===== src/Tests/Tables.antt =====
-- The accounts and the observers.
use ftps_server.Base.{map, refl, run_all, List, ◌≡◌, [], ◌∷◌, arith}
use ftps_server.Text.{codes}
use ftps_server.Status.{operation_success, operation_failure}
use ftps_server.User.{User, empty_user, set_login}
use ftps_server.Observer.{Notifier, file_put, file_get, register_observer}
use ftps_server.Observer.{insert, notify_observers, unregister_observer, same_event}
use ftps_server.Observer.Laws.{IsOrdered}
use ftps_server.Observer.Refine.{
  Call, enter, leave, signal, call_all, heard, waiting, promised_call, call_all-promised,
}

abbrev guest : User
guest = record { login = codes "guest"; password = codes "g"; folder = codes "/home/" }

abbrev admin : User
admin = set_login empty_user (codes "admin")

abbrev two : Notifier
two = (3, file_get) ∷ (7, file_put) ∷ []

abbrev calls : List Call
calls = enter 7 file_get ∷ signal file_put (codes "f") ∷ leave 3 file_put ∷ leave 7 file_put ∷ []

told_once :
    (call_all calls two).0
    ≡ (operation_success, [])
      ∷ (operation_success, (7, codes "f") ∷ [])
      ∷ (operation_failure, [])
      ∷ (operation_success, [])
      ∷ []
unfolding run_all register_observer insert notify_observers unregister_observer same_event
told_once = refl

call_all-promised_example :
    (map heard (call_all calls two).0 ≡ (run_all promised_call calls (waiting two)).0)
    × (waiting (call_all calls two).1 ≡ (run_all promised_call calls (waiting two)).1)
    × IsOrdered (call_all calls two).1
call_all-promised_example = call_all-promised calls two (omega arith)
