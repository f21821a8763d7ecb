-- ===== src/Cron/Text.antt =====
-- What internal/hub/cron.go uses of strings and strconv, on texts as lists of code points: Fields,
-- Split, SplitN with two pieces, TrimSpace and Atoi. An int is its two's complement, below 2 ^ 64.
use whatsupp.Base.{
  ℕ, ◌+◌, ◌-◌, ◌*◌, ◌%◌, Bool, ◌&&◌, ◌||◌, List, [], ◌∷◌, Option, none, some, ltb, leb, ◌==◌,
  if◌then◌else◌,
}

abbrev pub Codes : Type 0
Codes = List ℕ

-- unicode.IsSpace
unfoldable pub is_space : ℕ → Bool
is_space c =
    (leb 9 c && leb c 13)
    || c == 32
    || c == 133
    || c == 160
    || c == 5760
    || (leb 8192 c && leb c 8202)
    || c == 8232
    || c == 8233
    || c == 8239
    || c == 8287
    || c == 12288

abbrev pub prepend : ℕ → List Codes → List Codes
prepend c [] = (c ∷ []) ∷ []
prepend c (w ∷ ws) = (c ∷ w) ∷ ws

-- The separators stand between the pieces, of which there is at least one.
unfoldable pub split : ℕ → Codes → List Codes
split sep [] = [] ∷ []
split sep (c ∷ cs) = let rest = split sep cs in if c == sep then [] ∷ rest else prepend c rest

-- The code point stands before a text with the given fields.
unfoldable pub field_before : ℕ → Codes → List Codes → List Codes
unfolding is_space
field_before c [] fs = (c ∷ []) ∷ fs
field_before c (d ∷ cs) fs = if is_space d then (c ∷ []) ∷ fs else prepend c fs

unfoldable pub fields : Codes → List Codes
unfolding field_before
fields [] = []
fields (c ∷ cs) = let rest = fields cs in if is_space c then rest else field_before c cs rest

-- Before and after the first separator, if there is one.
unfoldable pub cut : ℕ → Codes → Option (Codes × Codes)
cut sep [] = none
cut sep (c ∷ cs) =
    let rest = cut sep cs in
    if c == sep
    then some ([], cs)
    else elim rest [ none ↦ none | some (before, after) ↦ some (c ∷ before, after) ]

unfoldable pub trim_left : Codes → Codes
trim_left [] = []
trim_left (c ∷ cs) = let rest = trim_left cs in if is_space c then rest else c ∷ cs

unfoldable pub keep_code : ℕ → Codes → Codes
keep_code c [] = if is_space c then [] else c ∷ []
keep_code c (d ∷ cs) = c ∷ d ∷ cs

unfoldable pub trim_right : Codes → Codes
unfolding keep_code
trim_right [] = []
trim_right (c ∷ cs) = keep_code c (trim_right cs)

unfoldable pub trim_space : Codes → Codes
unfolding trim_left trim_right
trim_space cs = trim_right (trim_left cs)

-- The number with the digits, read after `n`.
unfoldable pub digits : ℕ → Codes → Option ℕ
digits n [] = some n
digits n (c ∷ cs) =
    let rest = digits (n * 10 + (c - 48)) cs in if leb 48 c && leb c 57 then rest else none

unfoldable pub number : Codes → Option ℕ
unfolding digits
number [] = none
number (c ∷ cs) = digits 0 (c ∷ cs)

abbrev pub two_63 : ℕ
two_63 = 9_223_372_036_854_775_808

abbrev pub two_64 : ℕ
two_64 = 18_446_744_073_709_551_616

unfoldable pub positive : Option ℕ → Option ℕ
positive none = none
positive (some k) = if ltb k two_63 then some k else none

unfoldable pub negative : Option ℕ → Option ℕ
negative none = none
negative (some k) = if leb k two_63 then some ((two_64 - k) % two_64) else none

unfoldable pub atoi : Codes → Option ℕ
unfolding number positive negative
atoi [] = none
atoi (c ∷ cs) =
    if c == 43
    then positive (number cs)
    else if c == 45
    then negative (number cs)
    else positive (number (c ∷ cs))
