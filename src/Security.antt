-- ===== src/Security.antt =====
-- internal/checks/security.go: port lists and their comparison with a baseline. A port is a natural
-- number. The scan itself, over TCP connections, is left out.
pub mod Sort
pub mod Membership
pub mod Drift
use whatsupp.Base.{
  ℕ, suc, ◌≤◌, Bool, true, false, not, ◌&&◌, ◌||◌, List, [], ◌∷◌, leb, ltb, ◌==◌, if◌then◌else◌,
  length, take, keep_if,
}
use Sort.{sort}

unfoldable pub contains_int : List ℕ → ℕ → Bool
contains_int [] x = false
contains_int (v ∷ xs) x = v == x || contains_int xs x

-- The inner loops of FilterByHysteresis: is the port in each scan, or in none?
unfoldable pub in_all : List (List ℕ) → ℕ → Bool
in_all [] p = true
in_all (scan ∷ window) p = contains_int scan p && in_all window p

unfoldable pub in_none : List (List ℕ) → ℕ → Bool
in_none [] p = true
in_none (scan ∷ window) p = not (contains_int scan p) && in_none window p

unfoldable pub filter_by_hysteresis : List ℕ → List ℕ → List (List ℕ) → ℕ → List ℕ × List ℕ
filter_by_hysteresis new_ports gone_ports recent_scans hysteresis =
    if leb hysteresis 1
    then (new_ports, gone_ports)
    else if ltb (length recent_scans) hysteresis
    then ([], [])
    else let window = take hysteresis recent_scans in
      (keep_if (in_all window) new_ports, keep_if (in_none window) gone_ports)

unfoldable pub compare_baseline : List ℕ → List ℕ → List ℕ × List ℕ
compare_baseline baseline current = (
  sort (keep_if (λ p. not (contains_int baseline p)) current),
  sort (keep_if (λ p. not (contains_int current p)) baseline),
)

-- A map[int]bool used as a set: its keys, each once.
unfoldable pub add_port : List ℕ → ℕ → List ℕ
add_port set p = if contains_int set p then set else p ∷ set

unfoldable pub add_ports : List ℕ → List ℕ → List ℕ
unfolding add_port
add_ports set [] = set
add_ports set (p ∷ ps) = add_ports (add_port set p) ps

unfoldable pub delete_ports : List ℕ → List ℕ → List ℕ
delete_ports set [] = set
delete_ports set (p ∷ ps) = delete_ports (keep_if (λ q. not (q == p)) set) ps

-- `range` is the order in which the loop over the map meets its keys.
unfoldable pub apply_baseline_drift : (List ℕ → List ℕ) → List ℕ → List ℕ → List ℕ → List ℕ
apply_baseline_drift range baseline alerted_new alerted_gone =
    sort (range (delete_ports (add_ports (add_ports [] baseline) alerted_new) alerted_gone))
