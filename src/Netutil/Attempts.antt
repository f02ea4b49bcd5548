-- ===== src/Netutil/Attempts.antt =====
-- The loops of core/netutil/netutil.go end after a hundred and one attempts.
use lohpi.Common.{
  ltb, network_error, Outcome, ok, err, ℕ, zero, suc, ◌+◌, String, ◌≡◌, refl, true, false, Option,
  none, some, List, ◌∷◌, arith,
}
use lohpi.Netutil.{
  port_after, open_port_loop, get_open_port, listener_after, listener_loop, get_listener,
}

abbrev pub or_else {ℓ} : {A : Type ℓ} → Option A → Option A → Option A
or_else none o = o
or_else (some a) o = some a

-- the first success of `n` attempts from the given one on
abbrev pub first_success {ℓ} : {A : Type ℓ} → (ℕ → Option A) → ℕ → ℕ → Option A
first_success listen i zero = none
first_success listen i (suc n) = or_else (listen i) (first_success listen (i + 1) n)

abbrev pub port_or_zero : Option ℕ → ℕ
port_or_zero none = 0
port_or_zero (some p) = p

abbrev pub found_or_error : {L : Type 0} → Option L → Outcome L
found_or_error none = err network_error
found_or_error (some l) = ok l

is_last : (attempts : ℕ) → attempts + 1 ≡ 101 → ltb 100 (attempts + 1) ≡ true
is_last attempts left = ground (arith, left)

is_not_last : (fuel attempts : ℕ) → attempts + suc (suc fuel) ≡ 101 → ltb 100 (attempts + 1) ≡ false
is_not_last fuel attempts left = ground (arith, left)

port_after_last :
    (again : ℕ → Option ℕ) (attempts : ℕ) (o : Option ℕ)
    → attempts + 1 ≡ 101
    → port_after again attempts o ≡ some (port_or_zero (or_else o none))
port_after_last again attempts (some p) left = refl
port_after_last again attempts none left = rw (is_last attempts left) refl

port_after_more :
    (again : ℕ → Option ℕ) (fuel attempts : ℕ) (o rest : Option ℕ)
    → attempts + suc (suc fuel) ≡ 101
    → again (attempts + 1) ≡ some (port_or_zero rest)
    → port_after again attempts o ≡ some (port_or_zero (or_else o rest))
port_after_more again fuel attempts (some p) rest left e = refl
port_after_more again fuel attempts none rest left e = rw (is_not_last fuel attempts left) e

open_port_loop_lem :
    (listen : ℕ → Option ℕ) (fuel attempts : ℕ)
    → attempts + suc fuel ≡ 101
    → open_port_loop listen (suc fuel) attempts
      ≡ some (port_or_zero (first_success listen attempts (suc fuel)))
unfolding open_port_loop
open_port_loop_lem listen zero attempts left =
    port_after_last (open_port_loop listen 0) attempts (listen attempts) left
open_port_loop_lem listen (suc fuel) attempts left =
    port_after_more (open_port_loop listen (suc fuel)) fuel attempts (listen attempts) _ left
      (open_port_loop_lem listen fuel (attempts + 1) (omega (arith, left)))

-- `GetOpenPort` ends, and returns the first port among a hundred and one attempts, or 0.
pub get_open_port-first_success :
    (listen : ℕ → Option ℕ)
    → get_open_port listen ≡ some (port_or_zero (first_success listen 0 101))
unfolding get_open_port
get_open_port-first_success listen = open_port_loop_lem listen 100 0 (omega arith)

module _ {L : Type 0} where
  listener_after_last :
      (again : ℕ → Option (Outcome L)) (attempts : ℕ) (o : Option L)
      → attempts + 1 ≡ 101
      → listener_after again attempts o ≡ some (found_or_error (or_else o none))
  listener_after_last again attempts (some p) left = refl
  listener_after_last again attempts none left = rw (is_last attempts left) refl

  listener_after_more :
      (again : ℕ → Option (Outcome L)) (fuel attempts : ℕ) (o rest : Option L)
      → attempts + suc (suc fuel) ≡ 101
      → again (attempts + 1) ≡ some (found_or_error rest)
      → listener_after again attempts o ≡ some (found_or_error (or_else o rest))
  listener_after_more again fuel attempts (some p) rest left e = refl
  listener_after_more again fuel attempts none rest left e = rw (is_not_last fuel attempts left) e

  listener_loop_lem :
      (listen : ℕ → Option L) (fuel attempts : ℕ)
      → attempts + suc fuel ≡ 101
      → listener_loop listen (suc fuel) attempts
        ≡ some (found_or_error (first_success listen attempts (suc fuel)))
  unfolding listener_loop
  listener_loop_lem listen zero attempts left =
      listener_after_last (listener_loop listen 0) attempts (listen attempts) left
  listener_loop_lem listen (suc fuel) attempts left =
      listener_after_more (listener_loop listen (suc fuel)) fuel attempts (listen attempts) _ left
        (listener_loop_lem listen fuel (attempts + 1) (omega (arith, left)))

  -- On a host with an address, `GetListener` ends, and returns the first listener on the first
  -- address among a hundred and one attempts, or the error that there is none.
  pub get_listener-first_success :
      (address : String) (addresses : List String) (listen : String → ℕ → Option L)
      → get_listener (some (address ∷ addresses)) listen
        ≡ some (found_or_error (first_success (listen address) 0 101))
  unfolding get_listener
  get_listener-first_success address addresses listen =
      listener_loop_lem (listen address) 100 0 (omega arith)
