-- ===== src/Result.antt =====
-- Exceptions as values: the exception classes that the program raises, each with its message.
use henry.Prelude.{◌≡◌, refl, ◌⊎◌, inl, inr, Bool, true, false}
use henry.Text.{Text}

pub data Error : Type 0 where
  value_error runtime_error type_error key_error file_not_found integrity_error : Text → Error
  sandbox_error session_not_found session_destroyed path_error archive_error : Text → Error
  usage_limit_exceeded model_retry : Text → Error
  other_error : Text → Error

-- What a call returns or raises.
pub data Result {ℓ} (A : Type ℓ) : Type ℓ where
  err : Error → Result A
  ok : A → Result A

infixl 5 ◌>>=◌ ◌>>◌
-- A raised exception passes by what comes later.
abbrev pub ◌>>=◌ {ℓ κ} : {A : Type ℓ} {B : Type κ} → Result A → (A → Result B) → Result B
err raised >>= later = err raised
ok value >>= later = later value

-- `if bad: raise e`
abbrev pub raise_if : Bool → Error → Result (Unit {0})
raise_if true e = err e
raise_if false e = ok tt

abbrev pub ◌>>◌ {κ} : {B : Type κ} → Result (Unit {0}) → Result B → Result B
first >> second = first >>= (λ done. second)

-- `str(exc)`
pub message : Error → Text
message (value_error m) = m
message (runtime_error m) = m
message (type_error m) = m
message (key_error m) = m
message (file_not_found m) = m
message (integrity_error m) = m
message (sandbox_error m) = m
message (session_not_found m) = m
message (session_destroyed m) = m
message (path_error m) = m
message (archive_error m) = m
message (usage_limit_exceeded m) = m
message (model_retry m) = m
message (other_error m) = m

-- What a result has if the call returns.
abbrev pub Ensures {ℓ κ} : {A : Type ℓ} → (A → Type κ) → Result A → Type (ℓ ⊔ κ)
Ensures {A} P m = (a : A) → m ≡ ok a → P a

pub Ensures-bind {ℓ κ ι} :
    {A : Type ℓ} {B : Type κ} {P : B → Type ι} (m : Result A) (f : A → Result B)
    → ((a : A) → Ensures P (f a))
    → Ensures P (m >>= f)
Ensures-bind (ok a) f h = h a
Ensures-bind (err e) f h = λ b q. absurd (cc)

-- As Ensures-bind, from what the first result has.
pub Ensures-bind-with {ℓ κ ι} :
    {A : Type ℓ} {B : Type κ} {Q : A → Type ι} {P : B → Type ι} (m : Result A) (f : A → Result B)
    → Ensures Q m
    → ((a : A) → Q a → Ensures P (f a))
    → Ensures P (m >>= f)
Ensures-bind-with (ok a) f q h = h a (q a refl)
Ensures-bind-with (err e) f q h = λ b p. absurd (cc)

pub ok-injective {ℓ} : {A : Type ℓ} {a b : A} → ok a ≡ ok b → a ≡ b
ok-injective h = cc

pub Ensures-ok {ℓ κ} : {A : Type ℓ} (P : A → Type κ) (a : A) → P a → Ensures P (ok a)
Ensures-ok P a h = λ b e. mathlib.Core.Path.subst P (ok-injective e) h

pub Result-cases {ℓ} :
    {A : Type ℓ} (m : Result A) → ((a : A) × (m ≡ ok a)) ⊎ ((e : Error) × (m ≡ err e))
Result-cases (ok a) = inl (a, refl)
Result-cases (err e) = inr (e, refl)

pub Ensures-raise_if :
    (bad : Bool) (e : Error) → Ensures (λ (u : Unit {0}). bad ≡ false) (raise_if bad e)
Ensures-raise_if true e = λ u q. absurd (cc)
Ensures-raise_if false e = λ u q. refl

-- Behind `if bad: raise e` the test is known to have failed.
pub Ensures-unless {ℓ κ} :
    {A : Type ℓ} {P : A → Type κ} (bad : Bool) (e : Error) {m : Result A}
    → (bad ≡ false → Ensures P m)
    → Ensures P (raise_if bad e >> m)
Ensures-unless true e h = λ a q. absurd (cc)
Ensures-unless false e h = h refl
