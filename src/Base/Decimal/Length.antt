-- ===== src/Base/Decimal/Length.antt =====
-- How long a number is in decimal.
use Prim.Native.Nat.{ℕ, zero, suc, ◌+◌, ◌*◌, ◌/◌, ◌%◌, ◌≤◌, ◌<◌}
use Prim.Native.String.{String, [], ◌∷◌, ◌++◌}
use mathlib.Core.Path.{◌≡◌}
use native.Mathlib.Omega.{arith}
use text.Mathlib.TextLemmas.{nil-append, cons-append}
use k4all_operator.Base.Decimal.{digit, format_digits, format_nat, format_int}
use k4all_operator.Base.Decimal.RoundTrip.{code-digit}
use k4all_operator.Base.Int.{pos}
use k4all_operator.Base.Text.{byte_length}

pub byte_length-append : (s t : String) → byte_length (s ++ t) ≡ byte_length s + byte_length t
unfolding byte_length
byte_length-append [] t = rw nil-append (omega arith)
byte_length-append (c ∷ s) t = rw cons-append (omega (arith, byte_length-append s t))

-- 10 ^ k
abbrev pub ten_to : ℕ → ℕ
ten_to zero = 1
ten_to (suc k) = 10 * ten_to k

digit_length : (d : ℕ) (s : String) → d < 10 → byte_length (digit d ∷ s) ≡ suc (byte_length s)
unfolding byte_length
digit_length d s h = ground (arith, code-digit d h)

format_digits-length :
    (fuel k n : ℕ) (out : String)
    → n < ten_to k
    → byte_length (format_digits fuel n out) ≤ k + byte_length out
unfolding format_digits
format_digits-length zero k n out h = omega arith
format_digits-length (suc fuel) zero n out h = ground arith
format_digits-length (suc fuel) (suc k) n out h = ground (
  arith,
  digit_length (n % 10) out (omega arith),
  format_digits-length fuel k (n / 10) (digit (n % 10) ∷ out) (omega (arith, h)),
)

-- A number below the k-th power of ten has at most k digits, and one digit at least.
pub format_int-length : (k n : ℕ) → 1 ≤ k → n < ten_to k → byte_length (format_int (pos n)) ≤ k
unfolding format_int format_nat byte_length
format_int-length k zero positive h = omega arith
format_int-length k (suc n) positive h = omega (arith, format_digits-length (suc n) k (suc n) [] h)
