-- ===== src/Base/Runs.antt =====
-- Sequences of calls on a state, and when one state does what another one promises.
use mathlib.Core.Path.{◌≡◌, refl, ap}
use mathlib.Core.List.{List, [], ◌∷◌, map}

-- The answers of many calls, and the state behind them.
unfoldable pub run_all {i j k} :
    {S : Type i} {R : Type j} {A : Type k} → (R → S → A × S) → List R → S → List A × S
run_all step [] s = ([], s)
run_all step (r ∷ rs) s =
    let (a, s1) = step r s in let (later, s2) = run_all step rs s1 in (a ∷ later, s2)

-- If each call keeps to what is promised of it, as `seen` and `view` show answers and states, so do
-- any number of them.
pub run_all-promised {i j k l m n} :
    {S : Type i} {T : Type j} {R : Type k} {A : Type l} {B : Type m} (step : R → S → A × S)
    (promise : R → T → B × T) (seen : A → B) (view : S → T) (Good : S → Type n)
    → ((r : R) (s : S)
        → Good s
        → (seen (step r s).0 ≡ (promise r (view s)).0)
          × (view (step r s).1 ≡ (promise r (view s)).1)
          × Good (step r s).1)
    → (rs : List R) (s : S) → Good s
    → (map seen (run_all step rs s).0 ≡ (run_all promise rs (view s)).0)
      × (view (run_all step rs s).1 ≡ (run_all promise rs (view s)).1)
      × Good (run_all step rs s).1
unfolding run_all
run_all-promised step promise seen view Good one [] s h = (refl, refl, h)
run_all-promised step promise seen view Good one (r ∷ rs) s h =
    let (answer, state, good) = one r s h in
    let (answers, last, all_good) =
      run_all-promised step promise seen view Good one rs (step r s).1 good in
    (
      rw (← answer, ← state) (ap (λ rest. seen (step r s).0 ∷ rest) answers),
      rw (← state) last,
      all_good,
    )

pub map-same {ℓ} : {A : Type ℓ} (l : List A) → map (λ (a : A). a) l ≡ l
map-same [] = refl
map-same (a ∷ l) = ap (λ (t : _). a ∷ t) (map-same l)
