-- ===== src/Number/RoundTrip.antt =====
-- `stoi` reads back what `to_string` prints, whatever follows it.
use ftps_server.Base.{
  ℕ, zero, suc, ◌+◌, ◌-◌, ◌*◌, ◌/◌, ◌%◌, ◌^◌, ◌≤◌, ◌<◌, ◌≡◌, refl, ◌∙◌, true, false, [], ◌∷◌, ◌++◌,
  arith, ◌==◌, ==_iff, ap, pos, ok, All, Bool-cases, inl, inr,
}
use ftps_server.Text.{Bytes, is_digit}
use ftps_server.Number.{digits_value, stoi, digits_onto, decimal}

-- The text does not go on with a digit.
abbrev pub Ends : Bytes → Type 0
Ends [] = Unit
Ends (c ∷ cs) = is_digit c ≡ false

abbrev pub Digits : Bytes → Type 0
Digits = All (λ c. is_digit c ≡ true)

abbrev pub Numeral : Bytes → Type 0
Numeral [] = ⊥
Numeral (c ∷ cs) = Digits (c ∷ cs)

digit-is_digit : (n : ℕ) → is_digit (b'0' + n % 10) ≡ true
digit-is_digit n = ground arith

digits_onto-Numeral : (f n : ℕ) (out : Bytes) → Numeral out → Numeral (digits_onto f n out)
unfolding digits_onto
digits_onto-Numeral zero n out h = h
digits_onto-Numeral (suc f) n [] h = absurd h
digits_onto-Numeral (suc f) n (c ∷ cs) h = elim (Bool-cases (n == 0)) [
  | inl e ↦ rw e h
  | inr e ↦ rw e (digits_onto-Numeral f (n / 10) ((b'0' + n % 10) ∷ c ∷ cs) (digit-is_digit n, h))
]

suc-ne-zero : (n : ℕ) → (suc n == 0) ≡ false
suc-ne-zero n = ground arith

pub decimal-Numeral : (n : ℕ) → Numeral (decimal n)
unfolding decimal
decimal-Numeral zero = (refl, tt)
decimal-Numeral (suc n) =
    rw (suc-ne-zero n)
      (digits_onto-Numeral n (suc n / 10) ((b'0' + suc n % 10) ∷ []) (digit-is_digit (suc n), tt))

digits_value-digit :
    (acc n : ℕ) (out : Bytes)
    → digits_value acc ((b'0' + n % 10) ∷ out) ≡ digits_value (acc * 10 + n % 10) out
unfolding digits_value
digits_value-digit acc n out = ground arith

pub digits_value-digits_onto :
    (f n : ℕ) (out : Bytes) → n ≤ f → digits_value 0 (digits_onto f n out) ≡ digits_value n out
unfolding digits_onto
digits_value-digits_onto zero n out h = let e : n ≡ 0 = omega arith in rw e
digits_value-digits_onto (suc f) n out h = elim (Bool-cases (n == 0)) [
  | inl e ↦ rw (e, (==_iff n 0).0 e)
  | inr e ↦ rw e (
      digits_value-digits_onto f (n / 10) ((b'0' + n % 10) ∷ out) (ground arith)
      ∙ digits_value-digit (n / 10) n out
      ∙ ap (λ k. digits_value k out) (omega arith))
]

digits_value-nil : (n : ℕ) → digits_value n [] ≡ n
unfolding digits_value
digits_value-nil n = refl

pub digits_value-decimal : (n : ℕ) → digits_value 0 (decimal n) ≡ n
unfolding decimal
digits_value-decimal zero = unfold digits_value in refl
digits_value-decimal (suc n) = rw (suc-ne-zero n) (
    rw (suc-ne-zero n) at
      (digits_value-digits_onto (suc n) (suc n) [] (omega arith) ∙ digits_value-nil (suc n)))

digits_value-append :
    (acc : ℕ) (t rest : Bytes)
    → Ends rest
    → Digits t
    → digits_value acc (t ++ rest) ≡ digits_value acc t
unfolding digits_value
digits_value-append acc [] [] e h = refl
digits_value-append acc [] (c ∷ cs) e h = rw e
digits_value-append acc (c ∷ t) rest e h =
    rw (h.0) (digits_value-append (acc * 10 + (c - b'0')) t rest e h.1)

-- The head of a numeral is neither white space nor a sign.
stoi-Numeral :
    (t rest : Bytes)
    → Numeral t
    → Ends rest
    → digits_value 0 t < 2 ^ 31
    → stoi (t ++ rest) ≡ ok (pos (digits_value 0 t))
unfolding stoi
stoi-Numeral [] rest h e b = absurd h
stoi-Numeral (c ∷ cs) rest h e b = ground (arith, digits_value-append 0 (c ∷ cs) rest e h)

pub stoi-decimal :
    (n : ℕ) (rest : Bytes) → n < 2 ^ 31 → Ends rest → stoi (decimal n ++ rest) ≡ ok (pos n)
stoi-decimal n rest b e =
    stoi-Numeral (decimal n) rest (decimal-Numeral n) e (omega (arith, digits_value-decimal n))
    ∙ rw (digits_value-decimal n)
