-- ===== src/Status.antt =====
-- `OPERATION_SUCCESS` and `OPERATION_FAILURE`, which most headers define, and `bool` as `int`.
use ftps_server.Base.{Bool, true, false, ℤ, pos, negsuc, zero, suc}

abbrev pub operation_success : ℤ
operation_success = pos 0

abbrev pub operation_failure : ℤ
operation_failure = negsuc 0

-- An `int` as a condition: every value but 0 holds.
abbrev pub is_true : ℤ → Bool
is_true (pos zero) = false
is_true (pos (suc n)) = true
is_true (negsuc n) = true

abbrev pub of_bool : Bool → ℤ
of_bool true = pos 1
of_bool false = pos 0

abbrev pub is_success : ℤ → Bool
is_success (pos zero) = true
is_success (pos (suc n)) = false
is_success (negsuc n) = false
