-- ===== src/Crypto/Tests.antt =====
-- A unit on a disk in memory.
use lohpi.Common.{ok, ◌≡◌, refl, [], ◌∷◌}
use lohpi.Crypto.Memory.{plain_x509, one_directory, no_files}
use lohpi.Crypto.{CryptoUnit, unit_in, load_cu, save_state}
use lohpi.Crypto.Reloaded.{IsWritten, load_cu-save_state}

abbrev saved_unit : CryptoUnit plain_x509 one_directory
saved_unit = unit_in plain_x509 one_directory "crypto" (1 ∷ []) (2 ∷ []) (3 ∷ [])

saved_unit-IsWritten : IsWritten plain_x509 one_directory saved_unit no_files
unfolding one_directory
saved_unit-IsWritten = record {
  key_bytes = 3 ∷ [];
  marshalled = refl;
  key_written = refl;
  ca_written = refl;
  self_written = refl;
}

load_cu-save_state_example :
    load_cu plain_x509 one_directory "crypto"
      (save_state plain_x509 one_directory saved_unit no_files).0
    ≡ ok saved_unit
load_cu-save_state_example =
    load_cu-save_state plain_x509 one_directory "crypto" (1 ∷ []) (2 ∷ []) (3 ∷ []) no_files
      saved_unit-IsWritten
