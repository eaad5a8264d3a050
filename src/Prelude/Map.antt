-- ===== src/Prelude/Map.antt =====
-- `std::unordered_map<std::string, std::string>` as an association list with distinct keys.
use Prim.Native.Nat.{◌+◌, ◌≤◌}
use mathlib.Core.Path.{◌≡◌, refl}
use mathlib.Core.List.{List, [], ◌∷◌}
use mathlib.Core.Option.{Option, none, some}
use native.Mathlib.Omega.{arith}
use cs_system_lab.Prelude.Tests.{if◌then◌else◌}
use cs_system_lab.Prelude.Lists.{length}
use cs_system_lab.Prelude.Bytes.{Bytes, eq_bytes, eq_bytes_iff}

abbrev pub Headers : Type 0
Headers = List (Bytes × Bytes)

-- `m.find(k)`
unfoldable pub lookup : Bytes → Headers → Option Bytes
lookup k [] = none
lookup k ((j, v) ∷ m) = if eq_bytes j k then some v else lookup k m

-- `m[k] = v`
unfoldable pub insert : Bytes → Bytes → Headers → Headers
insert k v [] = (k, v) ∷ []
insert k v ((j, w) ∷ m) = if eq_bytes j k then (j, v) ∷ m else (j, w) ∷ insert k v m

pub lookup-insert :
    (k j v : Bytes) (m : Headers)
    → lookup j (insert k v m) ≡ (if eq_bytes k j then some v else lookup j m)
unfolding lookup insert
lookup-insert k j v [] = refl
lookup-insert k j v ((i, w) ∷ m) =
    ground (arith, eq_bytes_iff k j, eq_bytes_iff i k, eq_bytes_iff i j, lookup-insert k j v m)

pub length-insert-le : (k v : Bytes) (m : Headers) → length (insert k v m) ≤ length m + 1
unfolding insert
length-insert-le k v [] = omega arith
length-insert-le k v ((i, w) ∷ m) = ground (arith, length-insert-le k v m)
