-- ===== src/Netutil.antt =====
-- core/netutil/netutil.go: a port or a listener is looked for until one is found or a hundred
-- attempts have failed. `listen` gives the outcome of each call of `net.Listen` in turn.
pub mod Attempts
use lohpi.Common.{
  ltb, if◌then◌else◌, not_found, network_error, Outcome, ok, err, panic, ℕ, zero, suc, ◌+◌, String,
  Option, none, some, List, [], ◌∷◌,
}

abbrev pub port_after : (ℕ → Option ℕ) → ℕ → Option ℕ → Option ℕ
port_after again attempts (some port) = some port
port_after again attempts none = if ltb 100 (attempts + 1) then some 0 else again (attempts + 1)

-- the loop of `GetOpenPort`; `none` is fuel that is used up
unfoldable pub open_port_loop : (ℕ → Option ℕ) → ℕ → ℕ → Option ℕ
open_port_loop listen zero attempts = none
open_port_loop listen (suc fuel) attempts =
    port_after (open_port_loop listen fuel) attempts (listen attempts)

-- `GetOpenPort`, where 0 is no port
unfoldable pub get_open_port : (ℕ → Option ℕ) → Option ℕ
unfolding open_port_loop
get_open_port listen = open_port_loop listen 101 0

abbrev pub listener_after :
    {Listener : Type 0}
    → (ℕ → Option (Outcome Listener))
    → ℕ
    → Option Listener
    → Option (Outcome Listener)
listener_after again attempts (some l) = some (ok l)
listener_after again attempts none =
    if ltb 100 (attempts + 1) then some (err network_error) else again (attempts + 1)

-- the loop of `GetListener`
unfoldable pub listener_loop :
    {Listener : Type 0} → (ℕ → Option Listener) → ℕ → ℕ → Option (Outcome Listener)
listener_loop listen zero attempts = none
listener_loop listen (suc fuel) attempts =
    listener_after (listener_loop listen fuel) attempts (listen attempts)

-- `GetListener`: the first address of the host, which panics where there is none
unfoldable pub get_listener :
    {Listener : Type 0}
    → Option (List String)
    → (String → ℕ → Option Listener)
    → Option (Outcome Listener)
unfolding listener_loop
get_listener none listen = some (err network_error)
get_listener (some []) listen = some panic
get_listener (some (address ∷ addresses)) listen = listener_loop (listen address) 101 0

-- `LocalIP`: the first address that is found for the host
unfoldable pub local_ip : Option (List String) → Outcome String
local_ip none = err network_error
local_ip (some []) = err not_found
local_ip (some (a ∷ addresses)) = ok a
