-- ===== src/Common/Results.antt =====
-- What a Go function that returns an `error` may do: return a value, return an error, or panic.
use mathlib.Core.Logic.{◌≢◌}
use mathlib.Core.Path.{◌≡◌, refl}
use mathlib.Core.Option.{Option, none, some}

pub data Error : Type 0 where
  nil_argument empty_argument not_found already_running : Error
  sql_error redis_error codec_error network_error file_error format_error range_error : Error
  invalid_mode empty_members no_recipients : Error

pub data Outcome {ℓ} (A : Type ℓ) : Type ℓ where
  ok : A → Outcome A
  err : Error → Outcome A
  panic : Outcome A

infixl 5 ◌>>=◌
abbrev pub ◌>>=◌ {ℓ κ} : {A : Type ℓ} {B : Type κ} → Outcome A → (A → Outcome B) → Outcome B
ok a >>= f = f a
err e >>= f = err e
panic >>= f = panic

-- the value of a call to a service outside the repository, which fails with the given error
abbrev pub or_err {ℓ} : {A : Type ℓ} → Error → Option A → Outcome A
or_err e none = err e
or_err e (some a) = ok a

pub ok-calm {ℓ} : {A : Type ℓ} (a : A) → ok a ≢ panic
ok-calm a h = cc

pub err-calm {ℓ} : {A : Type ℓ} (e : Error) → ◌≢◌ {A = Outcome A} (err e) panic
err-calm e h = cc

pub ok-eq {ℓ} : {A : Type ℓ} (a b : A) → ok a ≡ ok b → a ≡ b
ok-eq a b h = cc

-- a chain of calls that gives a value has given one at each step
pub bind_ok {ℓ κ} :
    {A : Type ℓ} {B : Type κ} (o : Outcome A) (f : A → Outcome B) (b : B)
    → (o >>= f) ≡ ok b
    → (a : A) × (o ≡ ok a) × (f a ≡ ok b)
bind_ok (ok a) f b h = (a, refl, h)
bind_ok (err e) f b h = absurd (cc)
bind_ok panic f b h = absurd (cc)

pub or_err-ok {ℓ} : {A : Type ℓ} (e : Error) (o : Option A) (a : A) → or_err e o ≡ ok a → o ≡ some a
or_err-ok e none a h = cc
or_err-ok e (some b) a h = cc
