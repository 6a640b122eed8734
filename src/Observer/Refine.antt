-- ===== src/Observer/Refine.antt =====
-- The notifier against what it promises: a function from observers to the events they wait for.
use mathlib.Core.Path.{fun_ext}
use mathlib.Core.Option
use ftps_server.Base.{
  ℕ, ◌≡◌, refl, ap, sym, ◌∙◌, true, false, List, [], ◌∷◌, map, Option, none, some, if◌then◌else◌,
  ◌==◌, ℤ, arith, put_at, inl, inr, Bool-cases, run_all, run_all-promised,
}
use ftps_server.Text.{Bytes}
use ftps_server.Status.{operation_success, operation_failure}
use ftps_server.Observer.{
  ObserveEvent, Notifier, register_observer, unregister_observer, notify_observers,
}
use ftps_server.Observer.Laws.{
  IsOrdered, lookup, told, awaits, told-notify_observers, lookup-register_observer,
  lookup-unregister_observer,
}

-- A call on the notifier.
pub data Call : Type 0 where
  enter leave : ℕ → ObserveEvent → Call
  signal : ObserveEvent → Bytes → Call

-- Its result, and the calls of `notify_signal` that it makes. A notification has no result.
abbrev pub call_notifier : Call → Notifier → (ℤ × List (ℕ × Bytes)) × Notifier
call_notifier (enter o e) t = let (r, t') = register_observer t o e in ((r, []), t')
call_notifier (leave o e) t = let (r, t') = unregister_observer t o e in ((r, []), t')
call_notifier (signal e message) t = ((operation_success, notify_observers t e message), t)

-- What each observer waits for, and what each of them is told.
abbrev pub Waiting : Type 0
Waiting = ℕ → Option ObserveEvent

abbrev pub Told : Type 0
Told = ℤ × (ℕ → List Bytes)

abbrev pub waiting : Notifier → Waiting
waiting t = λ q. lookup q t

abbrev pub heard : ℤ × List (ℕ × Bytes) → Told
heard (r, calls) = (r, λ q. told q calls)

-- An observer keeps the first event; it leaves only with the event it waits for.
abbrev pub promised_call : Call → Waiting → Told × Waiting
promised_call (enter o e) w =
    ((operation_success, λ q. []), put_at w o (some (Option.get_or (w o) e)))
promised_call (leave o e) w =
    if awaits (w o) e
    then ((operation_success, λ q. []), put_at w o none)
    else ((operation_failure, λ q. []), w)
promised_call (signal e message) w =
    ((operation_success, λ q. if awaits (w q) e then message ∷ [] else []), w)

-- A call that tells nobody.
abbrev silent : ℤ → Told
silent r = (r, λ q. [])

waiting-enter :
    (t : Notifier) (o : ℕ) (e : ObserveEvent) (q : ℕ)
    → IsOrdered t
    → lookup q (register_observer t o e).1
      ≡ put_at (waiting t) o (some (Option.get_or (lookup o t) e)) q
waiting-enter t o e q h =
    let (_, _, found) = lookup-register_observer t o e q h in
    elim (Bool-cases (o == q)) [
      | inl same ↦
          let at_o : o ≡ q = ground arith in
          rw same
            (rw same at found ∙ ap (λ (p : ℕ). some (Option.get_or (lookup p t) e)) (sym at_o))
      | inr other ↦ rw other (rw other at found)
    ]

waiting-leave :
    (t : Notifier) (o : ℕ) (e : ObserveEvent) (q : ℕ)
    → IsOrdered t
    → awaits (lookup o t) e ≡ true
    → lookup q (unregister_observer t o e).1 ≡ put_at (waiting t) o none q
waiting-leave t o e q h there =
    let (_, found, _) = lookup-unregister_observer t o e q h in rw there at found

waiting-stay :
    (t : Notifier) (o : ℕ) (e : ObserveEvent) (q : ℕ)
    → IsOrdered t
    → awaits (lookup o t) e ≡ false
    → lookup q (unregister_observer t o e).1 ≡ lookup q t
waiting-stay t o e q h other =
    let (_, found, _) = lookup-unregister_observer t o e q h in rw other at found

call_notifier-promised :
    (c : Call) (t : Notifier)
    → IsOrdered t
    → (heard (call_notifier c t).0 ≡ (promised_call c (waiting t)).0)
      × (waiting (call_notifier c t).1 ≡ (promised_call c (waiting t)).1)
      × IsOrdered (call_notifier c t).1
call_notifier-promised (enter o e) t h =
    let (r, ordered, _) = lookup-register_observer t o e o h in
    (ap silent r, fun_ext λ q. waiting-enter t o e q h, ordered)
call_notifier-promised (leave o e) t h =
    let (r, _, ordered) = lookup-unregister_observer t o e o h in
    elim (Bool-cases (awaits (lookup o t) e)) [
      | inl there ↦
          rw there (ap silent (rw there at r), fun_ext λ q. waiting-leave t o e q h there, ordered)
      | inr other ↦
          rw other (ap silent (rw other at r), fun_ext λ q. waiting-stay t o e q h other, ordered)
    ]
call_notifier-promised (signal e message) t h = (
  ap (λ (f : ℕ → List Bytes). (operation_success, f))
      (fun_ext λ q. told-notify_observers t e message q h),
  refl,
  h,
)

abbrev pub call_all : List Call → Notifier → List (ℤ × List (ℕ × Bytes)) × Notifier
call_all cs t = run_all call_notifier cs t

-- A notifier in the order of the addresses answers any sequence of calls as the function of its
-- observers does: each notification tells every observer that waits for the event the message once,
-- and every other one nothing; an observer keeps the event that it was entered for first, and leaves
-- only with that event. Behind the calls the notifier is that of the function, in the order still.
pub call_all-promised :
    (cs : List Call) (t : Notifier)
    → IsOrdered t
    → (map heard (call_all cs t).0 ≡ (run_all promised_call cs (waiting t)).0)
      × (waiting (call_all cs t).1 ≡ (run_all promised_call cs (waiting t)).1)
      × IsOrdered (call_all cs t).1
call_all-promised cs t h =
    run_all-promised call_notifier promised_call heard waiting IsOrdered call_notifier-promised cs t
      h
