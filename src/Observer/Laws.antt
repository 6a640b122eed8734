-- ===== src/Observer/Laws.antt =====
-- The notifier's table: who is told of an event.
use ftps_server.Base.{
  ℕ, ◌<◌, ◌≡◌, refl, ◌↔◌, Bool, true, false, ◌&&◌, List, [], ◌∷◌, Option, none, some, arith,
  if◌then◌else◌, ◌==◌,
}
use mathlib.Core.Option
use ftps_server.Text.{Bytes}
use ftps_server.Status.{operation_success, operation_failure}
use ftps_server.Observer.{
  ObserveEvent, same_event, Notifier, insert, register_observer, unregister_observer,
  notify_observers,
}

-- The addresses rise along the table.
abbrev Above : ℕ → Notifier → Type 0
Above o [] = Unit
Above o ((p, f) ∷ t) = (o < p) × Above o t

abbrev pub IsOrdered : Notifier → Type 0
IsOrdered [] = Unit
IsOrdered ((p, f) ∷ t) = Above p t × IsOrdered t

abbrev pub lookup : ℕ → Notifier → Option ObserveEvent
lookup o [] = none
lookup o ((p, f) ∷ t) = if p == o then some f else lookup o t

-- What an observer is told.
abbrev pub told : ℕ → List (ℕ × Bytes) → List Bytes
told o [] = []
told o ((p, m) ∷ t) = if p == o then m ∷ told o t else told o t

abbrev pub awaits : Option ObserveEvent → ObserveEvent → Bool
awaits none e = false
awaits (some f) e = same_event f e

same_event_iff : (a b : ObserveEvent) → (same_event a b ≡ true) ↔ (a ≡ b)
unfolding same_event
same_event_iff a b = ground arith

Above-mono : (o p : ℕ) (t : Notifier) → o < p → Above p t → Above o t
Above-mono o p [] h a = tt
Above-mono o p ((q, f) ∷ t) h a = (omega arith, Above-mono o p t h a.1)

lookup-Above : (o : ℕ) (t : Notifier) → Above o t → lookup o t ≡ none
lookup-Above o [] a = refl
lookup-Above o ((q, f) ∷ t) a = ground (arith, lookup-Above o t a.1)

insert-Above :
    (p o : ℕ) (e : ObserveEvent) (t : Notifier) → p < o → Above p t → Above p (insert o e t)
unfolding insert
insert-Above p o e [] h a = (h, tt)
insert-Above p o e ((q, f) ∷ t) h a = ground (arith, insert-Above p o e t h a.1)

insert-IsOrdered :
    (o : ℕ) (e : ObserveEvent) (t : Notifier) → IsOrdered t → IsOrdered (insert o e t)
unfolding insert
insert-IsOrdered o e [] h = (tt, tt)
insert-IsOrdered o e ((q, f) ∷ t) h =
    ground (arith, insert-Above q o e t, Above-mono o q t, insert-IsOrdered o e t h.1)

lookup-insert :
    (o q : ℕ) (e : ObserveEvent) (t : Notifier)
    → IsOrdered t
    → lookup q (insert o e t) ≡ (if o == q then some (Option.get_or (lookup q t) e) else lookup q t)
unfolding insert
lookup-insert o q e [] h = ground arith
lookup-insert o q e ((p, f) ∷ t) h =
    ground
      (arith, lookup-insert o q e t h.1, lookup-Above p t h.0, lookup-Above o t, Above-mono o p t)

-- In a table in the order of the addresses, an observer of an event is told the message once, and
-- every other observer nothing.
pub told-notify_observers :
    (t : Notifier) (e : ObserveEvent) (message : Bytes) (q : ℕ)
    → IsOrdered t
    → told q (notify_observers t e message) ≡ (if awaits (lookup q t) e then message ∷ [] else [])
unfolding notify_observers
told-notify_observers [] e message q h = refl
told-notify_observers ((p, f) ∷ t) e message q h =
    ground (arith, told-notify_observers t e message q h.1, lookup-Above p t h.0)

-- In a table in the order of the addresses: registering enters a new observer for the event, one that
-- is there keeps the event it has, the others stay, the order too, and the call reports success.
pub lookup-register_observer :
    (t : Notifier) (o : ℕ) (e : ObserveEvent) (q : ℕ)
    → IsOrdered t
    → ((register_observer t o e).0 ≡ operation_success)
      × IsOrdered (register_observer t o e).1
      × (lookup q (register_observer t o e).1
          ≡ (if o == q then some (Option.get_or (lookup q t) e) else lookup q t))
unfolding register_observer
lookup-register_observer t o e q h = (refl, insert-IsOrdered o e t h, lookup-insert o q e t h)

unregister_observer-Above :
    (p : ℕ) (t : Notifier) (o : ℕ) (e : ObserveEvent)
    → Above p t
    → Above p (unregister_observer t o e).1
unfolding unregister_observer
unregister_observer-Above p [] o e a = tt
unregister_observer-Above p ((q, f) ∷ t) o e a =
    ground (arith, unregister_observer-Above p t o e a.1)

unregister_observer-IsOrdered :
    (t : Notifier) (o : ℕ) (e : ObserveEvent)
    → IsOrdered t
    → IsOrdered (unregister_observer t o e).1
unfolding unregister_observer
unregister_observer-IsOrdered [] o e h = tt
unregister_observer-IsOrdered ((q, f) ∷ t) o e h =
    ground (arith, unregister_observer-Above q t o e h.0, unregister_observer-IsOrdered t o e h.1)

unregister_observer-result :
    (t : Notifier) (o : ℕ) (e : ObserveEvent)
    → IsOrdered t
    → (unregister_observer t o e).0
      ≡ (if awaits (lookup o t) e then operation_success else operation_failure)
unfolding unregister_observer
unregister_observer-result [] o e h = refl
unregister_observer-result ((p, f) ∷ t) o e h =
    ground (arith, unregister_observer-result t o e h.1, lookup-Above p t h.0)

unregister_observer-lookup :
    (t : Notifier) (o : ℕ) (e : ObserveEvent) (q : ℕ)
    → IsOrdered t
    → lookup q (unregister_observer t o e).1
      ≡ (if awaits (lookup o t) e && o == q then none else lookup q t)
unfolding unregister_observer
unregister_observer-lookup [] o e q h = refl
unregister_observer-lookup ((p, f) ∷ t) o e q h =
    ground (arith, unregister_observer-lookup t o e q h.1, lookup-Above p t h.0)

-- In a table in the order of the addresses: unregistering takes the observer away, and reports
-- success, exactly if it is entered for this event; the other observers stay, and the order too.
pub lookup-unregister_observer :
    (t : Notifier) (o : ℕ) (e : ObserveEvent) (q : ℕ)
    → IsOrdered t
    → ((unregister_observer t o e).0
        ≡ (if awaits (lookup o t) e then operation_success else operation_failure))
      × (lookup q (unregister_observer t o e).1
          ≡ (if awaits (lookup o t) e && o == q then none else lookup q t))
      × IsOrdered (unregister_observer t o e).1
lookup-unregister_observer t o e q h = (
  unregister_observer-result t o e h,
  unregister_observer-lookup t o e q h,
  unregister_observer-IsOrdered t o e h,
)
