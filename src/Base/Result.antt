-- ===== src/Base/Result.antt =====
-- Python code that may raise: a value or an exception.
use mathlib.Core.Path.{◌≡◌, refl}
use mathlib.Core.Bool.{Bool, true, false}

-- `no_fuel` stands for no exception of Python: a loop of the model ran out of its rounds.
pub data Error : Type 0 where
  value_error struct_error runtime_error key_error callback_error timeout_error : Error
  cancelled_error type_error no_fuel : Error

pub data Result {ℓ} (A : Type ℓ) : Type ℓ where
  raise : Error → Result A
  ok : A → Result A

-- what follows a call runs only if the call returns
abbrev pub and_then {ℓ κ} : {A : Type ℓ} {B : Type κ} → (A → Result B) → Result A → Result B
and_then rest (raise e) = raise e
and_then rest (ok a) = rest a

-- `if not test: raise e`
abbrev pub guard : Bool → Error → Result (Unit {0})
guard test e = if_passed test
  where
    if_passed : Bool → Result (Unit {0})
    if_passed false = raise e
    if_passed true = ok tt

infixl 5 ◌>>◌ ◌>>=◌
abbrev pub ◌>>◌ {ℓ} : {B : Type ℓ} → Result (Unit {0}) → Result B → Result B
call >> rest = and_then (λ done. rest) call

abbrev pub ◌>>=◌ {ℓ κ} : {B : Type κ} {A : Type ℓ} → Result A → (A → Result B) → Result B
call >>= rest = and_then rest call

-- a call that returned, and what followed it
abbrev pub Ran {ℓ κ} : {A : Type ℓ} {B : Type κ} → Result A → (A → Result B) → B → Type (ℓ ⊔ κ)
Ran {A = A} call rest b = (a : A) × (call ≡ ok a) × (rest a ≡ ok b)

pub bind-ok {κ ℓ} :
    {B : Type κ} {A : Type ℓ} (call : Result A) (rest : A → Result B) {b : B}
    → (call >>= rest) ≡ ok b
    → Ran call rest b
bind-ok (raise e) rest returned = cc
bind-ok (ok a) rest returned = (a, refl, returned)

unfoldable pub ok_value {ℓ} : {A : Type ℓ} → A → Result A → A
ok_value d (ok e) = e
ok_value d (raise x) = d

-- what a call returns, if it returns, satisfies `P`
abbrev pub Returns {ℓ κ} : {A : Type ℓ} → (A → Type κ) → Result A → Type κ
Returns P (raise e) = Unit
Returns P (ok a) = P a

pub Returns-bind {ℓ κ ℓ' κ'} :
    {A : Type ℓ} {B : Type ℓ'} (P : A → Type κ) (Q : B → Type κ') (call : Result A)
    (rest : A → Result B)
    → Returns P call
    → ((a : A) → P a → Returns Q (rest a))
    → Returns Q (call >>= rest)
Returns-bind P Q (raise e) rest h k = tt
Returns-bind P Q (ok a) rest h k = k a h

pub Returns-any {ℓ} : {A : Type ℓ} (call : Result A) → Returns (λ a. Unit {0}) call
Returns-any (raise e) = tt
Returns-any (ok a) = tt

pub Returns-self {ℓ} : {A : Type ℓ} (call : Result A) → Returns (λ a. call ≡ ok a) call
Returns-self (raise e) = tt
Returns-self (ok a) = refl
