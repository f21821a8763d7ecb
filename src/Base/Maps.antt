-- ===== src/Base/Maps.antt =====
-- Go maps with string keys, as functions: the code never depends on an order of the keys.
use Prim.Native.String.{String}
use mathlib.Core.Option.{Option, none, some}
use text.Mathlib.Text.{◌==◌ as str_eq}
use whatsupp.Base.Tests.{if◌then◌else◌}

abbrev pub Map {ℓ} : Type ℓ → Type ℓ
Map V = String → Option V

module _ {ℓ} {V : Type ℓ} where
  abbrev pub empty_map : Map V
  empty_map k = none

  -- m[k] = v
  abbrev pub insert : Map V → String → V → Map V
  insert m k v j = if str_eq k j then some v else m j

  -- delete(m, k)
  abbrev pub delete : Map V → String → Map V
  delete m k j = if str_eq k j then none else m j
