-- ===== src/Base/Results.antt =====
-- Fallible code: a value or an error of the model's own.
use mathlib.Core.Path.{◌≡◌, refl, ap}
use mathlib.Core.Bool.{Bool, true, false, not, ◌||◌}
use mathlib.Core.Option.{Option, none, some}

pub data Result {ℓ κ} (E : Type ℓ) (A : Type κ) : Type (ℓ ⊔ κ) where
  ok : A → Result E A
  err : E → Result E A

-- What follows a call, which an exception skips.
infixl 5 ◌>>=◌ ◌>>◌
abbrev pub ◌>>=◌ {ℓ} : {E A B : Type ℓ} → Result E A → (A → Result E B) → Result E B
err exc >>= next = err exc
ok value >>= next = next value

abbrev pub ◌>>◌ {ℓ} : {E A B : Type ℓ} → Result E A → Result E B → Result E B
err exc >> after = err exc
ok value >> after = after

-- `if test: raise e`
abbrev pub raise_if {ℓ} : {E : Type ℓ} → Bool → E → Result E (Unit {ℓ})
raise_if true e = err e
raise_if false e = ok tt

abbrev pub or_raise {ℓ} : {E A : Type ℓ} → Option A → E → Result E A
or_raise none e = err e
or_raise (some a) e = ok a

-- A call that succeeds has succeeded in both parts.
pub >>=-eq-ok {ℓ} :
    {E A B : Type ℓ} (r : Result E A) (next : A → Result E B) {b : B}
    → (r >>= next) ≡ ok b
    → (value : A) × (r ≡ ok value) × (next value ≡ ok b)
>>=-eq-ok (err exc) next failed = cc
>>=-eq-ok (ok value) next same = (value, refl, same)

-- What follows a check that did not raise.
pub raise_if-passed {ℓ} :
    {E B : Type ℓ} (test : Bool) (e : E) (after : Result E B) {b : B}
    → (raise_if test e >> after) ≡ ok b
    → (test ≡ false) × (after ≡ ok b)
raise_if-passed true e after h = cc
raise_if-passed false e after h = (refl, h)

pub >>-eq-ok {ℓ} :
    {E A B : Type ℓ} (r : Result E A) (after : Result E B) {b : B}
    → (r >> after) ≡ ok b
    → (value : A) × (r ≡ ok value) × (after ≡ ok b)
>>-eq-ok (err exc) after failed = cc
>>-eq-ok (ok value) after same = (value, refl, same)

-- A check at the end that did not raise.
pub raise_if-false {ℓ} :
    {E : Type ℓ} (test : Bool) (e : E) {x : Unit {ℓ}} → raise_if test e ≡ ok x → test ≡ false
raise_if-false true e h = cc
raise_if-false false e h = refl

-- Of two tests that do not fail, neither does.
pub neither : (a b : Bool) → (a || b) ≡ false → (a ≡ false) × (b ≡ false)
neither false false h = (refl, refl)
neither true b h = cc
neither false true h = cc

pub not-false : (b : Bool) → not b ≡ false → b ≡ true
not-false true h = refl
not-false false h = cc

pub ok-injective {ℓ} : {E A : Type ℓ} {a b : A} → ◌≡◌ {A = Result E A} (ok a) (ok b) → a ≡ b
ok-injective {E} {A} {a} {b} h = ap (value_or a) h
  where
    value_or : A → Result E A → A
    value_or d (ok x) = x
    value_or d (err e) = d

pub err-injective {ℓ} : {E A : Type ℓ} {a b : E} → ◌≡◌ {A = Result E A} (err a) (err b) → a ≡ b
err-injective {E} {A} {a} {b} h = ap (error_or a) h
  where
    error_or : E → Result E A → E
    error_or d (ok x) = d
    error_or d (err e) = e
