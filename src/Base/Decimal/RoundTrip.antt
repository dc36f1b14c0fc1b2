-- ===== src/Base/Decimal/RoundTrip.antt =====
-- A printed int64 is read back.
use Prim.Native.Nat.{ℕ, zero, suc, ◌+◌, ◌/◌, ◌%◌, ◌^◌, ◌≤◌, ◌<◌}
use Prim.Native.Char.{Char, code}
use Prim.Native.String.{String, [], ◌∷◌}
use mathlib.Core.Path.{◌≡◌, refl}
use mathlib.Core.Bool.{false}
use mathlib.Core.Option.{some}
use native.Mathlib.Omega.{arith}
use k4all_operator.Base.Tests.{nat_eq, Bool-cases}
use mathlib.Core.Logic.{inl, inr}
use k4all_operator.Base.Int.{ℤ, pos, negsuc}
use k4all_operator.Base.Decimal.{
  digit, format_digits, format_nat, format_int, digits_value, unsigned, positive, negative,
  parse_int,
}

pub code-digit : (d : ℕ) → d < 10 → code (digit d) ≡ 48 + d
unfolding digit
code-digit zero h = refl
code-digit (suc zero) h = refl
code-digit (suc (suc zero)) h = refl
code-digit (suc (suc (suc zero))) h = refl
code-digit (suc (suc (suc (suc zero)))) h = refl
code-digit (suc (suc (suc (suc (suc zero))))) h = refl
code-digit (suc (suc (suc (suc (suc (suc zero)))))) h = refl
code-digit (suc (suc (suc (suc (suc (suc (suc zero))))))) h = refl
code-digit (suc (suc (suc (suc (suc (suc (suc (suc zero)))))))) h = refl
code-digit (suc (suc (suc (suc (suc (suc (suc (suc (suc zero))))))))) h = refl
code-digit (suc (suc (suc (suc (suc (suc (suc (suc (suc (suc d)))))))))) h = absurd (omega arith)

digits_value-format_digits :
    (fuel n : ℕ) (out : String)
    → n ≤ fuel
    → digits_value (format_digits fuel n out) 0 ≡ digits_value out n
unfolding format_digits digits_value
digits_value-format_digits zero n out h = ground arith
digits_value-format_digits (suc fuel) n out h =
    ground
      (arith, digits_value-format_digits fuel (n / 10) (digit (n % 10) ∷ out), code-digit (n % 10))

format_digits-cons :
    (fuel n : ℕ) (c : Char) (s : String)
    → (d : Char) × (t : String) × (format_digits fuel n (c ∷ s) ≡ d ∷ t)
unfolding format_digits
format_digits-cons zero n c s = (c, s, refl)
format_digits-cons (suc fuel) n c s = elim (Bool-cases (nat_eq n 0)) [
  | inl done ↦ (c, s, rw done)
  | inr more ↦
      let (d, t, e) = format_digits-cons fuel (n / 10) (digit (n % 10)) (c ∷ s) in (d, t, rw more e)
]

nat_eq-suc : (n : ℕ) → nat_eq (suc n) 0 ≡ false
nat_eq-suc n = ground arith

format_nat-cons : (n : ℕ) → (d : Char) × (t : String) × (format_nat n ≡ d ∷ t)
unfolding format_nat format_digits
format_nat-cons zero = ("0", [], refl)
format_nat-cons (suc n) = rw nat_eq-suc (format_digits-cons n (suc n / 10) (digit (suc n % 10)) [])

digits_value-format_nat : (n : ℕ) → digits_value (format_nat n) 0 ≡ some n
unfolding format_nat digits_value
digits_value-format_nat zero = refl
digits_value-format_nat (suc n) = digits_value-format_digits (suc n) (suc n) [] (omega arith)

parse_int_of_digits :
    (c : Char) (s : String) (n : ℕ)
    → digits_value (c ∷ s) 0 ≡ some n
    → parse_int (c ∷ s) ≡ positive (some n)
unfolding parse_int digits_value
parse_int_of_digits c s n h = ground arith

parse_int-format_nat : (n : ℕ) → parse_int (format_nat n) ≡ positive (some n)
parse_int-format_nat n =
    let (d, t, e) = format_nat-cons n in
    rw e (parse_int_of_digits d t n (rw e at (digits_value-format_nat n)))

unsigned-format_nat : (n : ℕ) → unsigned (format_nat n) ≡ some n
unfolding unsigned
unsigned-format_nat n =
    let (d, t, e) = format_nat-cons n in rw e (rw e at (digits_value-format_nat n))

-- the values of an int64
abbrev pub IsInt64 : ℤ → Type 0
IsInt64 (pos n) = n < 2 ^ 63
IsInt64 (negsuc n) = n < 2 ^ 63

-- Every int64 is read back from its decimal print.
pub parse_int-format_int : (z : ℤ) → IsInt64 z → parse_int (format_int z) ≡ some z
unfolding format_int
parse_int-format_int (pos n) h = rw parse_int-format_nat (unfold positive in ground arith)
parse_int-format_int (negsuc n) h =
    unfold parse_int in rw unsigned-format_nat (unfold negative in ground arith)
