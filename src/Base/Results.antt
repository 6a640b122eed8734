-- ===== src/Base/Results.antt =====
-- What can leave a function other than by its result: an exception, or a wait with no end.
use mathlib.Core.Path.{◌≡◌, refl}
use mathlib.Core.Logic.{◌⊎◌, inl, inr}

-- `invalid_argument` and `out_of_range` are the standard library's exceptions; nothing in the
-- program catches them. `blocked` is a call that never returns, `past_end` a read past an array.
pub data Fault : Type 0 where
  invalid_argument out_of_range blocked past_end : Fault

pub data Result {ℓ} (A : Type ℓ) : Type ℓ where
  err : Fault → Result A
  ok : A → Result A

infixl 5 ◌>>=◌
abbrev pub ◌>>=◌ {i j} : {X : Type i} {Y : Type j} → Result X → (X → Result Y) → Result Y
err fault >>= next = err fault
ok x >>= next = next x

pub >>=-eq-ok {i j} :
    {X : Type i} {Y : Type j} (r : Result X) (next : X → Result Y) {y : Y}
    → (r >>= next) ≡ ok y
    → (x : X) × (r ≡ ok x) × (next x ≡ ok y)
>>=-eq-ok (err fault) next e = cc
>>=-eq-ok (ok x) next e = (x, refl, e)

pub Result-cases {ℓ} :
    {A : Type ℓ} (r : Result A) → ((a : A) × (r ≡ ok a)) ⊎ ((f : Fault) × (r ≡ err f))
Result-cases (err f) = inr (f, refl)
Result-cases (ok a) = inl (a, refl)
