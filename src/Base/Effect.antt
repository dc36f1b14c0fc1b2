-- ===== src/Base/Effect.antt =====
-- Go functions that call the outside world and may fail: a state, and a value, an `error` or a
-- panic. What was done before an error or a panic stays done.
use Prim.Native.String.{String}
use mathlib.Core.Path.{◌≡◌, refl}
use mathlib.Core.Logic.{◌⊎◌, inl, inr}
use mathlib.Core.Bool.{Bool, true, false}
use k4all_operator.Base.Tests.{if◌then◌else◌}

-- What the program's tests can tell of an `error`: the reason of an API error, `fs.ErrNotExist`
-- inside a `*PathError`, and the wrapping by `fmt.Errorf("…: %w", err)`.
pub data Error : Type 0 where
  not_found no_match not_registered : Error
  not_exist : Error
  other : String → Error
  wrap : String → Error → Error

-- errors.IsNotFound, which looks through wrapping (`errors.As`)
abbrev pub is_not_found : Error → Bool
is_not_found not_found = true
is_not_found (wrap _ e) = is_not_found e
is_not_found _ = false

-- meta.IsNoMatchError(err) || runtime.IsNotRegisteredError(err), on an error as a client returns it
abbrev pub is_no_match : Error → Bool
is_no_match no_match = true
is_no_match not_registered = true
is_no_match _ = false

-- os.IsNotExist, which looks at the error itself and not through wrapping
abbrev pub is_not_exist : Error → Bool
is_not_exist not_exist = true
is_not_exist _ = false

pub data Result {ℓ} (A : Type ℓ) : Type ℓ where
  ok : A → Result A
  err : Error → Result A
  panic : String → Result A

-- To split on a computed result and keep the equation.
pub Result-cases {ℓ} :
    {A : Type ℓ} (r : Result A)
    → ((a : A) × (r ≡ ok a)) ⊎ (((e : Error) × (r ≡ err e)) ⊎ ((m : String) × (r ≡ panic m)))
Result-cases (ok a) = inl (a, refl)
Result-cases (err e) = inr (inl (e, refl))
Result-cases (panic m) = inr (inr (m, refl))

abbrev pub Action {ℓ} : Type ℓ → Type ℓ → Type ℓ
Action S A = S → Result A × S

module _ {ℓ} {S A : Type ℓ} where
  abbrev pub pure : A → Action S A
  pure a s = (ok a, s)

  abbrev pub fail : Error → Action S A
  fail e s = (err e, s)

  abbrev pub crash : String → Action S A
  crash m s = (panic m, s)

  abbrev pub lift : Result A → Action S A
  lift r s = (r, s)

module _ {ℓ} {S A B : Type ℓ} where
  -- `a, err := m; if err != nil { … }; …`
  abbrev handle_result : Result A → (Error → Action S B) → (A → Action S B) → Action S B
  handle_result (ok a) on_err on_ok s = on_ok a s
  handle_result (err e) on_err on_ok s = on_err e s
  handle_result (panic m) on_err on_ok s = (panic m, s)

  unfoldable pub handle : Action S A → (Error → Action S B) → (A → Action S B) → Action S B
  handle m on_err on_ok s = handle_result (m s).0 on_err on_ok (m s).1

  infixl 10 ◌>>=◌ ◌>>◌
  -- `if err != nil { return err }`
  unfoldable pub ◌>>=◌ : Action S A → (A → Action S B) → Action S B
  unfolding handle
  m >>= f = handle m fail f

  abbrev pub ◌>>◌ : Action S A → Action S B → Action S B
  m >> n = m >>= λ _. n

module _ {ℓ} {S A : Type ℓ} where
  -- `if err != nil { return fmt.Errorf("text: %w", err) }`
  unfoldable pub wrapping : String → Action S A → Action S A
  unfolding handle
  wrapping text m = handle m (λ e. fail (wrap text e)) pure

module _ {S A : Type 0} where
  -- the error is logged and the function goes on
  unfoldable pub ignore : Action S A → Action S Unit
  unfolding handle
  ignore m = handle m (λ _. pure tt) (λ _. pure tt)

  -- `err != nil && !errors.IsNotFound(err)`
  unfoldable pub unless_not_found : Action S A → Action S Unit
  unfolding handle
  unless_not_found m = handle m (λ e. if is_not_found e then pure tt else fail e) (λ _. pure tt)
