-- ===== src/Common/Results.antt =====
-- Results that may carry an error, and their monad.
use mathlib.Core.Path.{◌≡◌, refl}
use mathlib.Core.Logic.{◌⊎◌, inl, inr}
use mathlib.Core.Bool.{Bool, true, false}
use mathlib.Core.Option.{Option, none, some}
use native.Mathlib.Omega.{arith}

pub data Result {ℓ κ} (E : Type ℓ) (A : Type κ) : Type (ℓ ⊔ κ) where
  ok : A → Result E A
  err : E → Result E A

-- An early return with an error unless the test holds.
abbrev pub guard {ℓ} : {E : Type ℓ} → Bool → E → Result E (Unit {0})
guard false reason = err reason
guard true reason = ok tt

infixl 5 ◌>>=◌ ◌>>◌
abbrev pub ◌>>=◌ {ℓ κ μ} :
    {E : Type ℓ} {A : Type κ} {B : Type μ} → Result E A → (A → Result E B) → Result E B
err reason >>= next = err reason
ok value >>= next = next value

abbrev pub ◌>>◌ {ℓ κ} : {E : Type ℓ} {B : Type κ} → Result E (Unit {0}) → Result E B → Result E B
before >> after = before >>= λ done. after

-- `First` and `Take`: a missing row is an error.
abbrev pub or_fail {ℓ κ} : {E : Type ℓ} {A : Type κ} → Option A → E → Result E A
or_fail none e = err e
or_fail (some a) e = ok a

pub >>=-eq-ok {ℓ κ μ} :
    {E : Type ℓ} {A : Type κ} {B : Type μ} (m : Result E A) (next : A → Result E B) {b : B}
    → (m >>= next) ≡ ok b
    → (value : A) × (m ≡ ok value) × (next value ≡ ok b)
>>=-eq-ok (err reason) next went = cc
>>=-eq-ok (ok value) next went = (value, refl, went)

pub Result-cases {ℓ κ} :
    {E : Type ℓ} {A : Type κ} (r : Result E A) → ((a : A) × (r ≡ ok a)) ⊎ ((e : E) × (r ≡ err e))
Result-cases (ok a) = inl (a, refl)
Result-cases (err e) = inr (e, refl)

pub guard-eq-ok {ℓ} : {E : Type ℓ} (b : Bool) (e : E) {u : Unit {0}} → guard b e ≡ ok u → b ≡ true
guard-eq-ok true e h = refl
guard-eq-ok false e h = cc

pub ok-injective {ℓ κ} :
    {E : Type ℓ} {A : Type κ} {a b : A} → ◌≡◌ {A = Result E A} (ok a) (ok b) → a ≡ b
ok-injective h = cc

pub err≢ok {ℓ κ} :
    {E : Type ℓ} {A : Type κ} {e : E} {a : A} → ◌≡◌ {A = Result E A} (err e) (ok a) → ⊥
err≢ok h = cc

pub or_fail-eq-ok {ℓ κ} :
    {E : Type ℓ} {A : Type κ} (o : Option A) (e : E) {a : A} → or_fail o e ≡ ok a → o ≡ some a
or_fail-eq-ok none e h = cc
or_fail-eq-ok (some x) e h = ground arith

pub some_injective {ℓ} : {A : Type ℓ} {a b : A} → some a ≡ some b → a ≡ b
some_injective h = cc
