-- ===== src/Agent/Collectors.antt =====
-- internal/agent/collect_*.go: the collectors. What gopsutil and the Docker client return are
-- arguments; a float is of any type, made by the operations of a record. Counters are uint64, and
-- times are nanoseconds of a clock that does not go back.
pub mod Net
pub mod Docker
pub mod Sensors
pub mod Disk
pub mod Machine
use Prim.Native.String.{String}
use Prim.Native.String.{◌++◌ as append}
use Prim.Native.Char.{code}
use whatsupp.Base.{
  ℕ, ◌+◌, ◌-◌, ◌%◌, ◌^◌, ◌<◌, ◌≡◌, Bool, true, false, ◌&&◌, List, [], ◌∷◌, arith, ◌==◌, ltb, leb,
  if◌then◌else◌,
}

-- The floats that the collectors compute.
pub record Floats (V : Type 0) : Type 0 where
  pub zero_value : V
  pub one_value : V
  -- float64(n)
  pub of_uint : ℕ → V
  -- float64(n) / elapsed, for nanoseconds
  pub per_second : ℕ → ℕ → V
  -- (a / b) * 100
  pub percent : ℕ → ℕ → V
  -- (a / b) * n * 100
  pub cpu_percent : ℕ → ℕ → ℕ → V

abbrev pub two_64 : ℕ
two_64 = 2 ^ 64

-- a - b on uint64
abbrev pub sub_uint64 : ℕ → ℕ → ℕ
sub_uint64 a b = (a + two_64 - b) % two_64

-- kind.of.name
abbrev pub metric_name : String → String → String → String
metric_name kind of name = append kind (append "." (append of (append "." name)))

unfoldable pub has_prefix : String → String → Bool
has_prefix s String.[] = true
has_prefix String.[] (String.◌∷◌ c t) = false
has_prefix (String.◌∷◌ d s) (String.◌∷◌ c t) = code d == code c && has_prefix s t

-- What a counter has gained since an earlier reading; if it has fallen, 2 ^ 64 less its loss.
abbrev pub wrapped : ℕ → ℕ → ℕ
wrapped old new = if leb old new then new - old else two_64 - (old - new)

pub sub_uint64-wrapped :
    (old new : ℕ) → old < two_64 → new < two_64 → sub_uint64 new old ≡ wrapped old new
sub_uint64-wrapped old new h k = ground arith
