-- ===== src/Number/TwoBytes.antt =====
-- Two bytes put together by `(high << 8) | low`.
use Prim.Native.Nat.{bit_or}
use ftps_server.Base.{
  ℕ, zero, suc, ◌+◌, ◌*◌, ◌%◌, ◌^◌, ◌<◌, ◌≡◌, refl, Bool, true, if◌then◌else◌, arith, ◌==◌, ==_iff,
  pos,
}
use ftps_server.Number.{shift_or}

-- How many numbers below a bound a test refuses.
refused : (ℕ → Bool) → ℕ → ℕ
refused p zero = 0
refused p (suc k) = (if p k then 0 else 1) + refused p k

refused-zero : (p : ℕ → Bool) (bound i : ℕ) → i < bound → refused p bound ≡ 0 → p i ≡ true
unfolding refused
refused-zero p zero i below none_refused = absurd (omega arith)
refused-zero p (suc k) i below none_refused = ground (arith, refused-zero p k i)

abbrev joins : ℕ → ℕ → Bool
joins high low = bit_or (high * 256) low == high * 256 + low

abbrev joins_all : ℕ → Bool
joins_all high = refused (joins high) 256 == 0

joins_table : refused joins_all 256 ≡ 0
unfolding refused
joins_table = refl

bit_or_bytes : (high low : ℕ) → high < 256 → low < 256 → bit_or (high * 256) low ≡ high * 256 + low
bit_or_bytes high low h l =
    let row = refused-zero joins_all 256 high h joins_table in
    (==_iff _ _).0 (refused-zero (joins high) 256 low l ((==_iff _ _).0 row))

pub shift_or_bytes :
    (high low : ℕ) → high < 256 → low < 256 → shift_or (pos high) (pos low) ≡ pos (high * 256 + low)
unfolding shift_or
shift_or_bytes high low h l =
    let e : high % 2 ^ 32 * 256 % 2 ^ 32 ≡ high * 256 = omega arith in
    let d : low % 2 ^ 32 ≡ low = omega arith in
    rw (e, d) (ground (arith, bit_or_bytes high low h l))
