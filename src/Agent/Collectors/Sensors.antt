-- ===== src/Agent/Collectors/Sensors.antt =====
-- internal/agent/collect_temp.go: the temperatures, and the names of sensors as lists of code points.
-- unicode.ToLower is a parameter.
pub mod Names
use whatsupp.Base.{
  ℕ, zero, suc, String, Bool, true, false, ◌&&◌, ◌||◌, List, [], ◌∷◌, Option, none, some, leb, ◌==◌,
  if◌then◌else◌, length, map,
}
use whatsupp.Cron.Text.{Codes}
use whatsupp.Sockets.Origin.{contains}

abbrev pub underscore : ℕ
underscore = 95

abbrev pub package_word : Codes
package_word = b'p' ∷ b'a' ∷ b'c' ∷ b'k' ∷ b'a' ∷ b'g' ∷ b'e' ∷ []

abbrev pub coretemp : Codes
coretemp = b'c' ∷ b'o' ∷ b'r' ∷ b'e' ∷ b't' ∷ b'e' ∷ b'm' ∷ b'p' ∷ []

abbrev pub k10temp : Codes
k10temp = b'k' ∷ b'1' ∷ b'0' ∷ b't' ∷ b'e' ∷ b'm' ∷ b'p' ∷ []

abbrev pub tctl : Codes
tctl = b't' ∷ b'c' ∷ b't' ∷ b'l' ∷ []

abbrev pub tdie : Codes
tdie = b't' ∷ b'd' ∷ b'i' ∷ b'e' ∷ []

abbrev pub nouveau : Codes
nouveau = b'n' ∷ b'o' ∷ b'u' ∷ b'v' ∷ b'e' ∷ b'a' ∷ b'u' ∷ []

abbrev pub amdgpu : Codes
amdgpu = b'a' ∷ b'm' ∷ b'd' ∷ b'g' ∷ b'p' ∷ b'u' ∷ []

abbrev pub nvidia : Codes
nvidia = b'n' ∷ b'v' ∷ b'i' ∷ b'd' ∷ b'i' ∷ b'a' ∷ []

abbrev pub cpu : Codes
cpu = b'c' ∷ b'p' ∷ b'u' ∷ []

abbrev pub gpu : Codes
gpu = b'g' ∷ b'p' ∷ b'u' ∷ []

abbrev pub is_name_code : ℕ → Bool
is_name_code c =
    (leb b'a' c && leb c b'z')
    || (leb b'A' c && leb c b'Z')
    || (leb b'0' c && leb c b'9')
    || c == underscore
    || c == b'-'

unfoldable pub replace_code : ℕ → ℕ
replace_code c = if is_name_code c then c else underscore

-- ReplaceAll(name, "__", "_")
unfoldable pub collapse_pairs : Codes → Codes
collapse_pairs [] = []
collapse_pairs (c ∷ []) = c ∷ []
collapse_pairs (c ∷ d ∷ cs) =
    let collapsed = underscore ∷ collapse_pairs cs in
    let kept = c ∷ collapse_pairs (d ∷ cs) in
    if c == underscore && d == underscore then collapsed else kept

unfoldable pub collapse : ℕ → Codes → Codes
unfolding collapse_pairs
collapse zero name = name
collapse (suc fuel) name = elim (contains name (underscore ∷ underscore ∷ [])) [
  | true ↦ collapse fuel (collapse_pairs name)
  | false ↦ name
]

unfoldable pub trim_start : Codes → Codes
trim_start [] = []
trim_start (c ∷ cs) = let rest = trim_start cs in if c == underscore then rest else c ∷ cs

unfoldable pub trim_end : Codes → Codes
trim_end [] = []
trim_end (c ∷ cs) = elim (trim_end cs) [
  | [] ↦ if c == underscore then [] else c ∷ []
  | d ∷ rest ↦ c ∷ d ∷ rest
]

unfoldable pub sanitize_sensor_name : (ℕ → ℕ) → Codes → Codes
unfolding contains replace_code collapse trim_start trim_end
sanitize_sensor_name to_lower key =
    let lower = map to_lower key in
    if contains lower coretemp && contains lower package_word
    then cpu
    else if contains lower k10temp && contains lower tctl
    then cpu
    else if contains lower k10temp && contains lower tdie
    then cpu
    else if contains lower nouveau || contains lower amdgpu || contains lower nvidia
    then gpu
    else let name = map replace_code key in
      map to_lower (trim_end (trim_start (collapse (length name) name)))

pub record Temperature (V : Type 0) : Type 0 where
  pub sensor_key : Codes
  pub temperature : V

-- The error of a reading: no sensors, or a warning.
pub data SensorError : Type 0 where
  no_sensors warning : SensorError

module _ {V : Type 0} (is_zero : V → Bool) (to_lower : ℕ → ℕ) where
  -- The names, which the code puts behind "temp.", with the values.
  unfoldable pub temp_metrics : List (Temperature V) → List (Codes × V)
  unfolding sanitize_sensor_name
  temp_metrics [] = []
  temp_metrics (t ∷ ts) =
      let rest = temp_metrics ts in
      if is_zero t.temperature
      then rest
      else (sanitize_sensor_name to_lower t.sensor_key, t.temperature) ∷ rest

  unfoldable pub collect_temp : Option SensorError → List (Temperature V) → List (Codes × V)
  unfolding temp_metrics
  collect_temp (some no_sensors) temps = []
  collect_temp (some warning) temps = temp_metrics temps
  collect_temp none temps = temp_metrics temps
