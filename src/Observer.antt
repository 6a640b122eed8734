-- ===== src/Observer.antt =====
-- src/ftp_observer.h and src/ftp_observer.cpp. An observer is its address; the table is a
-- `std::map` on it, a list that rises by address.
pub mod Laws
pub mod Refine
use ftps_server.Base.{ℕ, Bool, true, false, ◌&&◌, List, [], ◌∷◌, if◌then◌else◌, ltb, ◌==◌, ℤ}
use ftps_server.Text.{Bytes}
use ftps_server.Status.{operation_success, operation_failure}

pub data ObserveEvent : Type 0 where
  file_put file_get any : ObserveEvent

unfoldable pub same_event : ObserveEvent → ObserveEvent → Bool
same_event file_put file_put = true
same_event file_get file_get = true
same_event any any = true
same_event _ _ = false

abbrev pub Notifier : Type 0
Notifier = List (ℕ × ObserveEvent)

abbrev pub new_notifier : Notifier
new_notifier = []

-- `std::map::insert`: a key that is there keeps its value.
unfoldable pub insert : ℕ → ObserveEvent → Notifier → Notifier
insert o e [] = (o, e) ∷ []
insert o e ((p, f) ∷ t) =
    if ltb o p then (o, e) ∷ (p, f) ∷ t else (if o == p then (p, f) ∷ t else (p, f) ∷ insert o e t)

unfoldable pub register_observer : Notifier → ℕ → ObserveEvent → ℤ × Notifier
unfolding insert
register_observer t o e = (operation_success, insert o e t)

unfoldable pub unregister_observer : Notifier → ℕ → ObserveEvent → ℤ × Notifier
unfolding same_event
unregister_observer [] o e = (operation_failure, [])
unregister_observer ((p, f) ∷ t) o e =
    let (result, rest) = unregister_observer t o e in
    if p == o && same_event f e then (operation_success, t) else (result, (p, f) ∷ rest)

-- The calls of `notify_signal` that `notify_observers` makes, in order.
unfoldable pub notify_observers : Notifier → ObserveEvent → Bytes → List (ℕ × Bytes)
unfolding same_event
notify_observers [] e message = []
notify_observers ((p, f) ∷ t) e message =
    let rest = notify_observers t e message in if same_event f e then (p, message) ∷ rest else rest
