-- ===== src/Prelude/Results.antt =====
-- Exceptions as values: a function that may raise returns `ok` or the exception.
use mathlib.Core.Path.{◌≡◌, refl}
use mathlib.Core.Bool.{Bool, true, false}
use mathlib.Core.Option.{Option, none, some}

pub data Result {ℓ κ} (E : Type ℓ) (A : Type κ) : Type (ℓ ⊔ κ) where
  err : E → Result E A
  ok : A → Result E A

infixl 5 ◌>>=◌ ◌>>◌
abbrev pub ◌>>=◌ {ℓ κ μ} :
    {E : Type ℓ} {A : Type κ} {B : Type μ} → Result E A → (A → Result E B) → Result E B
err e >>= f = err e
ok a >>= f = f a

abbrev pub ◌>>◌ {ℓ κ} : {E : Type ℓ} {B : Type κ} → Result E (Unit {0}) → Result E B → Result E B
m >> k = m >>= λ _. k

-- A value that has to be there.
abbrev pub need {ℓ κ} : {E : Type ℓ} {A : Type κ} → Option A → E → Result E A
need (some a) e = ok a
need none e = err e

-- `except`: the handler sees the exception.
abbrev pub catch {ℓ κ μ} :
    {E : Type ℓ} {F : Type κ} {A : Type μ} → Result E A → (E → Result F A) → Result F A
catch (ok a) h = ok a
catch (err e) h = h e

-- `if not test: raise e`
abbrev pub guard {ℓ} : {E : Type ℓ} → Bool → E → Result E (Unit {0})
guard false e = err e
guard true e = ok tt

pub guard-eq-ok {ℓ} : {E : Type ℓ} (b : Bool) (e : E) {u : Unit {0}} → guard b e ≡ ok u → b ≡ true
guard-eq-ok true e h = refl
guard-eq-ok false e h = cc

pub need-eq-ok {ℓ κ} :
    {E : Type ℓ} {A : Type κ} (o : Option A) (e : E) {a : A} → need o e ≡ ok a → o ≡ some a
need-eq-ok none e h = cc
need-eq-ok (some a) e h = cc
