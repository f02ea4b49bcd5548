-- ===== src/Common/Maps.antt =====
-- Go maps keyed by text, as association lists in the order in which `range` meets the keys.
use mathlib.Core.Path.{◌≡◌, refl}
use mathlib.Core.Option.{Option, none, some}
use mathlib.Core.List.{List, [], ◌∷◌}
use Prim.Native.String.{String}
use native.Mathlib.Omega.{arith}
use text.Mathlib.Text.{◌==◌ as str_eq}
use text.Mathlib.TextEquality.{eq_iff}
use lohpi.Common.Tests.{if◌then◌else◌}

module _ {ℓ} {V : Type ℓ} where
  -- `m[k] = v`
  abbrev pub assign : String → V → List (String × V) → List (String × V)
  assign k v [] = (k, v) ∷ []
  assign k v ((j, w) ∷ m) = if str_eq j k then (j, v) ∷ m else (j, w) ∷ assign k v m

  -- `m[k]`, where `none` is a missing key
  abbrev pub entry_of : String → List (String × V) → Option V
  entry_of k [] = none
  entry_of k ((j, w) ∷ m) = if str_eq j k then some w else entry_of k m

  pub entry_of-assign :
      (k : String) (v : V) (m : List (String × V)) (j : String)
      → entry_of j (assign k v m) ≡ (if str_eq k j then some v else entry_of j m)
  entry_of-assign k v [] j = refl
  entry_of-assign k v ((i, w) ∷ m) j =
      ground (arith, eq_iff k j, eq_iff i k, eq_iff i j, entry_of-assign k v m j)
