-- ===== src/Prelude/Outcomes.antt =====
-- How a function that may raise ends: with a value that has a property `P`, or with an exception
-- that `X` admits. There is a rule for each way to build such a function.
use mathlib.Core.Path.{◌≡◌, refl, subst}
use mathlib.Core.Bool.{Bool, true, false}
use mathlib.Core.Option.{Option, none, some}
use ai_researcher.Prelude.Results.{Result, ok, err, guard, need, catch, ◌>>=◌}

pub data Yields {ℓ κ μ ν} {E : Type ℓ} {A : Type κ} (X : E → Type μ) (P : A → Type ν)
    : Result E A → Type (ℓ ⊔ κ ⊔ μ ⊔ ν) where
  returns : {a : A} → P a → Yields X P (ok a)
  raises : {e : E} → X e → Yields X P (err e)

module _ {ℓ κ μ ν} {E : Type ℓ} {A : Type κ} {X : E → Type μ} {P : A → Type ν} where
  pub Yields-need :
      (o : Option A) (e : E) → X e → ((a : A) → o ≡ some a → P a) → Yields X P (need o e)
  Yields-need (some a) e x f = returns (f a refl)
  Yields-need none e x f = raises x

  pub Yields-ok : {r : Result E A} {a : A} → Yields X P r → r ≡ ok a → P a
  Yields-ok (returns p) h = subst P (cc) p
  Yields-ok (raises x) h = cc

  pub Yields-err : {r : Result E A} {e : E} → Yields X P r → r ≡ err e → X e
  Yields-err (returns p) h = cc
  Yields-err (raises x) h = subst X (cc) x

  -- With the reason why the value is not there.
  pub Yields-needed :
      (o : Option A) (e : E)
      → (o ≡ none → X e)
      → ((a : A) → o ≡ some a → P a)
      → Yields X P (need o e)
  Yields-needed (some a) e x f = returns (f a refl)
  Yields-needed none e x f = raises (x refl)

-- More exceptions, and less of the value.
pub Yields-weaken {ℓ κ μ ν μ' ν'} :
    {E : Type ℓ} {A : Type κ} {X : E → Type μ} {Y : E → Type μ'} {P : A → Type ν} {Q : A → Type ν'}
    {r : Result E A}
    → ((e : E) → X e → Y e)
    → ((a : A) → P a → Q a)
    → Yields X P r
    → Yields Y Q r
Yields-weaken f g (returns {a = a} p) = returns (g a p)
Yields-weaken f g (raises {e = e} x) = raises (f e x)

-- A value that is only required to be there.
pub Yields-need_any {ℓ κ μ} :
    {E : Type ℓ} {A : Type κ} {X : E → Type μ} (o : Option A) (e : E)
    → X e
    → Yields X (λ _. Unit {0}) (need o e)
Yields-need_any o e x = Yields-need o e x (λ a h. tt)

-- What a guard has tested holds after it.
pub Yields-guard {ℓ μ} :
    {E : Type ℓ} {X : E → Type μ} (b : Bool) (e : E) → X e → Yields X (λ _. b ≡ true) (guard b e)
Yields-guard true e x = returns refl
Yields-guard false e x = raises x

pub Yields-bind {ℓ κ ο μ ν ν'} :
    {E : Type ℓ} {A : Type κ} {B : Type ο} {X : E → Type μ} {P : A → Type ν} {Q : B → Type ν'}
    (m : Result E A) (f : A → Result E B)
    → Yields X P m
    → ((a : A) → P a → Yields X Q (f a))
    → Yields X Q (m >>= f)
Yields-bind (ok a) f y k = k a (Yields-ok y refl)
Yields-bind (err e) f y k = raises (Yields-err y refl)

pub Yields-map {ℓ κ μ ν ν'} :
    {E : Type ℓ} {A : Type κ} {X : E → Type μ} {P : A → Type ν} {Q : A → Type ν'} {r : Result E A}
    → ((a : A) → P a → Q a)
    → Yields X P r
    → Yields X Q r
Yields-map f (returns {a = a} p) = returns (f a p)
Yields-map f (raises x) = raises x

-- A handler deals with each exception that can come up.
pub Yields-catch {ℓ κ ο μ ν ν' ξ} :
    {E : Type ℓ} {F : Type κ} {A : Type ο} {X : E → Type μ} {Y : F → Type ξ} {P : A → Type ν}
    {Q : A → Type ν'} (m : Result E A) (h : E → Result F A)
    → Yields X P m
    → ((a : A) → P a → Q a)
    → ((e : E) → X e → Yields Y Q (h e))
    → Yields Y Q (catch m h)
Yields-catch (ok a) h y f g = returns (f a (Yields-ok y refl))
Yields-catch (err e) h y f g = g e (Yields-err y refl)
