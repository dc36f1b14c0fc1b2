-- ===== src/Base/Triple.antt =====
-- What holds after an action that returns, and what after one that fails or panics.
use Prim.Native.String.{String}
use mathlib.Core.Path.{◌≡◌, refl, subst}
use mathlib.Core.Logic.{◌≢◌, inl, inr}
use native.Mathlib.Omega.{arith}
use k4all_operator.Base.Effect.{
  wrap, Result, Result-cases, ok, err, panic, Action, pure, fail, lift, handle, ◌>>=◌, wrapping,
}

abbrev pub After : {S A : Type 0} → (A → S → Type 0) → (S → Type 0) → Result A → S → Type 0
After Q R (ok a) s = Q a s
After Q R (err e) s = R s
After Q R (panic m) s = R s

-- From `P`, the action ends in `Q a` if it returns `a`, and in `R` if it fails or panics.
pub record Triple {S A : Type 0} (P : S → Type 0) (m : Action S A) (Q : A → S → Type 0)
    (R : S → Type 0) : Type 0 where
  pub at : (s : S) → P s → After Q R (m s).0 (m s).1

module _ {S A : Type 0} (Q : A → S → Type 0) (R : S → Type 0) where
  pub ended_of :
      (r : Result A) (s : S)
      → ((a : A) → r ≡ ok a → Q a s)
      → (((a : A) → r ≢ ok a) → R s)
      → After Q R r s
  ended_of (ok a) s q w = q a refl
  ended_of (err e) s q w = w (λ a p. cc)
  ended_of (panic m) s q w = w (λ a p. cc)

  failed_ended : (r : Result A) (s : S) → After Q R r s → ((a : A) → r ≢ ok a) → R s
  failed_ended (ok a) s h none_ok = absurd (none_ok a refl)
  failed_ended (err e) s h none_ok = h
  failed_ended (panic m) s h none_ok = h

  wrapping_ended :
      (text : String) (r : Result A) (s : S)
      → After Q R r s
      → let t = handle (lift r) (λ e. fail (wrap text e)) pure s in After Q R t.0 t.1
  unfolding handle
  wrapping_ended text (ok a) s h = h
  wrapping_ended text (err e) s h = h
  wrapping_ended text (panic m) s h = h

module _ {S A : Type 0} {P : S → Type 0} {Q : A → S → Type 0} {R : S → Type 0} where
  pub returned :
      {m : Action S A} → Triple P m Q R → (s : S) → P s → (a : A) → (m s).0 ≡ ok a → Q a (m s).1
  returned {m} t s h a e = subst (λ r. After Q R r (m s).1) e (t.at s h)

  pub failed :
      {m : Action S A} → Triple P m Q R → (s : S) → P s → ((a : A) → (m s).0 ≢ ok a) → R (m s).1
  failed {m} t s h = failed_ended Q R (m s).0 (m s).1 (t.at s h)

  pub Triple-wrapping :
      (text : String) (m : Action S A) → Triple P m Q R → Triple P (wrapping text m) Q R
  unfolding wrapping handle
  Triple-wrapping text m t = record {
    at = λ s h. wrapping_ended Q R text (m s).0 (m s).1 (t.at s h);
  }

module _ {S A B : Type 0} (Q : A → S → Type 0) (T : B → S → Type 0) (R : S → Type 0) where
  bind_ended :
      (r : Result A) (f : A → Action S B) (s : S)
      → After Q R r s
      → ((a : A) → Triple (Q a) (f a) T R)
      → let t = handle (lift r) fail f s in After T R t.0 t.1
  unfolding handle
  bind_ended (ok a) f s h tf = (tf a).at s h
  bind_ended (err e) f s h tf = h
  bind_ended (panic m) f s h tf = h

module _ {S A B : Type 0} {P : S → Type 0} {Q : A → S → Type 0} {T : B → S → Type 0}
    {R : S → Type 0} where
  pub Triple-bind :
      (m : Action S A) (f : A → Action S B)
      → Triple P m Q R
      → ((a : A) → Triple (Q a) (f a) T R)
      → Triple P (m >>= f) T R
  unfolding ◌>>=◌ handle
  Triple-bind m f tm tf = record { at = λ s h. bind_ended Q T R (m s).0 f (m s).1 (tm.at s h) tf }

module _ {S A B : Type 0} {P : S → Type 0} {T : B → S → Type 0} {R : S → Type 0} where
  -- What follows a pure call, whose error is wrapped, may use that it returned.
  pub Triple-bind-lift :
      (text : String) (r : Result A) (f : A → Action S B)
      → ((s : S) → P s → R s)
      → ((a : A) → r ≡ ok a → Triple P (f a) T R)
      → Triple P (wrapping text (lift r) >>= f) T R
  unfolding ◌>>=◌ handle wrapping
  Triple-bind-lift text (ok a) f weaken tf = record { at = λ s h. (tf a refl).at s h }
  Triple-bind-lift text (err e) f weaken tf = record { at = λ s h. weaken s h }
  Triple-bind-lift text (panic m) f weaken tf = record { at = λ s h. weaken s h }

-- What a sequence returned with, its last step returned with.
pub bind-ok :
    {S A B : Type 0} (m : Action S A) (f : A → Action S B) (s : S) (b : B)
    → ((m >>= f) s).0 ≡ ok b
    → (a : A) × ((m s).0 ≡ ok a) × ((f a (m s).1).0 ≡ ok b) × ((f a (m s).1).1 ≡ ((m >>= f) s).1)
unfolding ◌>>=◌ handle
bind-ok m f s b done = elim (Result-cases (m s).0) [
  | inl (a, got) ↦ (a, got, ground (arith, got, done), ground (arith, got))
  | inr (inl (e, got)) ↦ ground (arith, got, done)
  | inr (inr (p, got)) ↦ ground (arith, got, done)
]
