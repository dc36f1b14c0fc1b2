-- ===== src/Base/Keeps.antt =====
-- What an action keeps, whether it returns, fails or panics: one rule for each way to build one.
use Prim.Native.String.{String}
use mathlib.Core.Path.{◌≡◌, refl}
use mathlib.Core.Bool.{Bool, true, false}
use mathlib.Core.Option.{Option, none, some}
use k4all_operator.Base.Tests.{if◌then◌else◌}
use k4all_operator.Base.Effect.{
  Error, is_not_found, Result, ok, err, panic, Action, pure, fail, crash, lift, handle, ◌>>=◌,
  wrapping, ignore, unless_not_found,
}

pub record Keeps {S A : Type 0} (P : S → Type 0) (m : Action S A) : Type 0 where
  pub at : (s : S) → P s → P (m s).1

module _ {S A : Type 0} {P : S → Type 0} where
  pub Keeps-pure : (a : A) → Keeps P (pure a)
  Keeps-pure a = record { at = λ s h. h }

  pub Keeps-fail : (e : Error) → Keeps P (fail {A = A} e)
  Keeps-fail e = record { at = λ s h. h }

  pub Keeps-crash : (m : String) → Keeps P (crash {A = A} m)
  Keeps-crash m = record { at = λ s h. h }

  pub Keeps-lift : (r : Result A) → Keeps P (lift r)
  Keeps-lift r = record { at = λ s h. h }

  pub Keeps-if :
      (test : Bool) (yes_ no_ : Action S A)
      → (test ≡ true → Keeps P yes_)
      → (test ≡ false → Keeps P no_)
      → Keeps P (if test then yes_ else no_)
  Keeps-if false yes_ no_ on_true on_false = on_false refl
  Keeps-if true yes_ no_ on_true on_false = on_true refl

module _ {S A B : Type 0} {P : S → Type 0} where
  handle_result-at :
      (r : Result A) (g : Error → Action S B) (f : A → Action S B) (s : S)
      → P s
      → ((e : Error) → r ≡ err e → Keeps P (g e))
      → ((a : A) → r ≡ ok a → Keeps P (f a))
      → P (handle (lift r) g f s).1
  unfolding handle
  handle_result-at (ok a) g f s h kg kf = (kf a refl).at s h
  handle_result-at (err e) g f s h kg kf = (kg e refl).at s h
  handle_result-at (panic m) g f s h kg kf = h

  pub Keeps-handle :
      (m : Action S A) (g : Error → Action S B) (f : A → Action S B)
      → Keeps P m
      → ((e : Error) → Keeps P (g e))
      → ((a : A) → Keeps P (f a))
      → Keeps P (handle m g f)
  unfolding handle
  Keeps-handle m g f km kg kf = record {
    at = λ s h. handle_result-at (m s).0 g f (m s).1 (km.at s h) (λ e _. kg e) (λ a _. kf a);
  }

  -- What follows a call that is no action of its own may use that it returned.
  pub Keeps-handle-lift :
      (r : Result A) (g : Error → Action S B) (f : A → Action S B)
      → ((e : Error) → r ≡ err e → Keeps P (g e))
      → ((a : A) → r ≡ ok a → Keeps P (f a))
      → Keeps P (handle (lift r) g f)
  Keeps-handle-lift r g f kg kf = record { at = λ s h. handle_result-at r g f s h kg kf }

  pub Keeps-bind :
      (m : Action S A) (f : A → Action S B)
      → Keeps P m
      → ((a : A) → Keeps P (f a))
      → Keeps P (m >>= f)
  unfolding ◌>>=◌
  Keeps-bind m f km kf = Keeps-handle m fail f km Keeps-fail kf

module _ {S A : Type 0} {P : S → Type 0} where
  pub Keeps-wrapping : (text : String) (m : Action S A) → Keeps P m → Keeps P (wrapping text m)
  unfolding wrapping
  Keeps-wrapping text m km = Keeps-handle m _ _ km (λ e. Keeps-fail _) (λ a. Keeps-pure a)

  pub Keeps-ignore : (m : Action S A) → Keeps P m → Keeps P (ignore m)
  unfolding ignore
  Keeps-ignore m km = Keeps-handle m _ _ km (λ e. Keeps-pure tt) (λ a. Keeps-pure tt)

  pub Keeps-unless_not_found : (m : Action S A) → Keeps P m → Keeps P (unless_not_found m)
  unfolding unless_not_found
  Keeps-unless_not_found m km =
      Keeps-handle m _ _ km
        (λ e. Keeps-if (is_not_found e) _ _ (λ _. Keeps-pure tt) (λ _. Keeps-fail e))
        (λ a. Keeps-pure tt)

-- A branch on an option, such as the error that a call returned beside its value.
pub Keeps-option :
    {S A B : Type 0} {P : S → Type 0} (o : Option A) (absent : Action S B)
    (present : A → Action S B)
    → Keeps P absent
    → ((a : A) → Keeps P (present a))
    → Keeps P (elim o [ none ↦ absent | some a ↦ present a ])
Keeps-option none absent present k f = k
Keeps-option (some a) absent present k f = f a

pub ruleset keeps_rules = (
  Keeps-pure, Keeps-fail, Keeps-crash, Keeps-lift, Keeps-if, Keeps-bind, Keeps-handle,
  Keeps-wrapping, Keeps-ignore, Keeps-unless_not_found,
)
