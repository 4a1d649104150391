-- ===== src/Base/Errors.antt =====
-- Exceptions as values. An error carries the exception's class and its message.
use Prim.Native.Nat.{ℕ}
use Prim.Native.String.{String}
use mathlib.Core.Path.{◌≡◌, refl, ap, subst}
use mathlib.Core.Logic.{◌⊎◌, inl, inr}
use native.Mathlib.Omega.{arith}
use mathlib.Core.Bool.{Bool, true, false, not}
use mathlib.Core.Option.{Option, none, some}

-- The key of a message in the dictionary of a validation error: a field of the request, an event of a
-- batch, or a field of that event.
pub data Place : Type 0 where
  field : String → Place
  event : ℕ → Place
  event_field : ℕ → String → Place

pub data Error : Type 0 where
  validation_error : String → Error
  invalid : Place → String → Error
  permission_denied : String → Error
  authentication_failed : String → Error
  api_exception : String → Error
  parse_error : String → Error
  throttled : ℕ → Error
  integrity_error : Error
  database_error : Error
  does_not_exist : Error

pub data Result {ℓ} (A : Type ℓ) : Type ℓ where
  ok : A → Result A
  err : Error → Result A

-- `if bad: raise e`
abbrev pub raise_if : Bool → Error → Result (Unit {0})
raise_if true e = err e
raise_if false e = ok tt

abbrev pub or_raise {ℓ} : {A : Type ℓ} → Option A → Error → Result A
or_raise none e = err e
or_raise (some a) e = ok a

infixl 5 ◌>>=◌
abbrev pub ◌>>=◌ {ℓ κ} : {A : Type ℓ} {B : Type κ} → Result A → (A → Result B) → Result B
err error >>= next = err error
ok value >>= next = next value

-- What the code does after a statement that returns nothing.
infixl 5 ◌>>◌
abbrev pub ◌>>◌ {ℓ} : {C : Type ℓ} → Result (Unit {0}) → Result C → Result C
statement >> rest = statement >>= λ done. rest

module _ {ℓ κ} {A : Type ℓ} {B : Type κ} where
  -- A chain of calls that returns has returned from its first call and then from the rest.
  pub >>=-eq-ok :
      (call : Result A) (rest : A → Result B) {result : B}
      → (call >>= rest) ≡ ok result
      → (value : A) × (call ≡ ok value) × (rest value ≡ ok result)
  >>=-eq-ok (err error) rest returned = absurd (cc)
  >>=-eq-ok (ok value) rest returned = (value, refl, returned)

pub raise_if-eq-ok : (b : Bool) (e : Error) {u : Unit {0}} → raise_if b e ≡ ok u → b ≡ false
raise_if-eq-ok true e h = cc
raise_if-eq-ok false e h = refl

-- `P` holds of the result, if there is one.
abbrev pub OnOk {ℓ} : {A : Type ℓ} → (A → Type 0) → Result A → Type 0
OnOk P (ok a) = P a
OnOk P (err e) = Unit

pub Result-cases {ℓ} :
    {A : Type ℓ} (m : Result A) → ((e : Error) × (m ≡ err e)) ⊎ ((a : A) × (m ≡ ok a))
Result-cases (ok a) = inr (a, refl)
Result-cases (err e) = inl (e, refl)

-- The call returns.
abbrev pub Returns : {A : Type 0} → Result A → Type 0
Returns {A} m = (r : A) × (m ≡ ok r)

-- The call raises.
abbrev pub Raises : {A : Type 0} → Result A → Type 0
Raises m = (e : Error) × (m ≡ err e)

pub OnOk-eq : {A : Type 0} (P : A → Type 0) (m : Result A) {a : A} → OnOk P m → m ≡ ok a → P a
OnOk-eq P (ok b) h e = subst P (ground arith) h
OnOk-eq P (err x) h e = absurd (cc)

-- A call that has returned, taken apart with its intermediate value as a variable.
pub >>=-cases {ℓ κ μ} :
    {A : Type ℓ} {B : Type κ} {C : Type μ} (call : Result A) (rest : A → Result B) {result : B}
    → (call >>= rest) ≡ ok result
    → ((value : A) → call ≡ ok value → rest value ≡ ok result → C)
    → C
>>=-cases (err error) rest returned use_it = absurd (cc)
>>=-cases (ok value) rest returned use_it = use_it value refl returned

-- The same of a test that has passed.
pub raise_if-cases {ℓ κ} :
    {B : Type ℓ} {C : Type κ} (b : Bool) (error : Error) (rest : Result B) {result : B}
    → (raise_if b error >> rest) ≡ ok result
    → (b ≡ false → rest ≡ ok result → C)
    → C
raise_if-cases true error rest returned use_it = absurd (cc)
raise_if-cases false error rest returned use_it = use_it refl returned

pub raise_if-not : (b : Bool) (e : Error) {u : Unit {0}} → raise_if (not b) e ≡ ok u → b ≡ true
raise_if-not true e h = refl
raise_if-not false e h = absurd (cc)

pub ok-injective {ℓ} : {A : Type ℓ} {a b : A} → ok a ≡ ok b → a ≡ b
ok-injective h = cc

pub or_raise-some {ℓ} :
    {A : Type ℓ} (o : Option A) (e : Error) {a : A} → or_raise o e ≡ ok a → o ≡ some a
or_raise-some none e h = absurd (cc)
or_raise-some (some b) e h = ap some (ok-injective h)
