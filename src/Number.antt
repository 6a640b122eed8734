-- ===== src/Number.antt =====
-- Numbers in text: `std::stoi` and `std::to_string`, and the 32-bit `int` operations of the
-- program on them.
pub mod RoundTrip
pub mod TwoBytes
use Prim.Native.Nat.{bit_or}
use ftps_server.Base.{
  ℕ, zero, suc, ◌+◌, ◌-◌, ◌*◌, ◌/◌, ◌%◌, ◌^◌, ◌≡◌, refl, Bool, true, false, List, [], ◌∷◌, ltb, leb,
  ◌==◌, if◌then◌else◌, ℤ, pos, negsuc, neg_ℕ, Result, ok, err, invalid_argument, out_of_range,
}
use ftps_server.Text.{Bytes, codes, is_digit}
use ftps_server.Stream.{skip_spaces}

-- The value of the digits in front, behind the digits that gave `acc`.
unfoldable pub digits_value : ℕ → Bytes → ℕ
digits_value acc [] = acc
digits_value acc (c ∷ cs) =
    let rest = digits_value (acc * 10 + (c - b'0')) cs in if is_digit c then rest else acc

-- The digits behind the sign; with none there is no number, and the value must fit an `int`.
unfoldable pub unsigned : Bool → Bytes → Result ℤ
unfolding digits_value
unsigned minus [] = err invalid_argument
unsigned minus (c ∷ cs) =
    let v = digits_value 0 (c ∷ cs) in
    if is_digit c
    then (if minus
        then (if leb v (2 ^ 31) then ok (neg_ℕ v) else err out_of_range)
        else (if ltb v (2 ^ 31) then ok (pos v) else err out_of_range))
    else err invalid_argument

unfoldable pub signed : Bytes → Result ℤ
unfolding unsigned
signed [] = err invalid_argument
signed (c ∷ cs) =
    if c == b'-'
    then unsigned true cs
    else (if c == b'+' then unsigned false cs else unsigned false (c ∷ cs))

-- `std::stoi(text)`: what follows the number is ignored.
unfoldable pub stoi : Bytes → Result ℤ
unfolding signed skip_spaces
stoi t = signed (skip_spaces t)

-- The decimal digits of `n` in front of `out`, with fuel; `n` rounds are always enough.
unfoldable pub digits_onto : ℕ → ℕ → Bytes → Bytes
digits_onto zero n out = out
digits_onto (suc f) n out =
    let rest = digits_onto f (n / 10) ((b'0' + n % 10) ∷ out) in if n == 0 then out else rest

unfoldable pub decimal : ℕ → Bytes
unfolding digits_onto
decimal n = if n == 0 then b'0' ∷ [] else digits_onto n n []

-- `std::to_string(int)`.
unfoldable pub to_string : ℤ → Bytes
unfolding decimal
to_string (pos n) = decimal n
to_string (negsuc n) = b'-' ∷ decimal (suc n)

-- An `int` as its bit pattern, and back.
abbrev pub to_word : ℤ → ℕ
to_word (pos n) = n % 2 ^ 32
to_word (negsuc n) = 2 ^ 32 - 1 - n % 2 ^ 32

abbrev pub from_word : ℕ → ℤ
from_word w = if ltb w (2 ^ 31) then pos w else negsuc (2 ^ 32 - 1 - w)

-- `(a << 8) | b` on `int`, bit by bit as the compiler does it.
unfoldable pub shift_or : ℤ → ℤ → ℤ
shift_or a b = from_word (bit_or (to_word a * 256 % 2 ^ 32) (to_word b))

stoi_tests :
    (stoi (codes " 12x") ≡ ok (pos 12))
    × (stoi (codes "-7") ≡ ok (negsuc 6))
    × (stoi (codes "x") ≡ err invalid_argument)
    × (stoi (codes "2147483648") ≡ err out_of_range)
unfolding stoi
stoi_tests = (refl, refl, refl, refl)

to_string_test : to_string (shift_or (pos 156) (pos 215)) ≡ codes "40151"
unfolding to_string shift_or
to_string_test = refl
