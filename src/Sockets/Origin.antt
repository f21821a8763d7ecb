-- ===== src/Sockets/Origin.antt =====
-- internal/api/websocket.go: CheckOrigin of the upgrader, on texts as lists of bytes.
use whatsupp.Base.{
  ℕ, ◌≡◌, refl, ap, ◌∙◌, ◌↔◌, ◌⊎◌, inl, inr, Bool, true, false, ◌&&◌, ◌||◌, List, [], ◌∷◌, ◌++◌,
  arith, ◌==◌, Bool-cases,
}

unfoldable pub has_prefix : List ℕ → List ℕ → Bool
has_prefix s [] = true
has_prefix [] (c ∷ t) = false
has_prefix (d ∷ s) (c ∷ t) = d == c && has_prefix s t

-- strings.Contains
unfoldable pub contains : List ℕ → List ℕ → Bool
unfolding has_prefix
contains [] t = has_prefix [] t
contains (d ∷ s) t = has_prefix (d ∷ s) t || contains s t

-- The header Origin, empty if it is missing, and the host of the request.
unfoldable pub check_origin : List ℕ → List ℕ → Bool
unfolding contains
check_origin [] host = true
check_origin (c ∷ origin) host = contains (c ∷ origin) host

-- The text stands somewhere in the other.
abbrev pub Within : List ℕ → List ℕ → Type 0
Within host origin = (before : List ℕ) × (after : List ℕ) × (origin ≡ before ++ (host ++ after))

prefix-Within : (s t : List ℕ) → has_prefix s t ≡ true → (after : List ℕ) × (s ≡ t ++ after)
unfolding has_prefix
prefix-Within s [] e = (s, refl)
prefix-Within [] (c ∷ t) e = absurd (ground (arith, e))
prefix-Within (d ∷ s) (c ∷ t) e =
    let (after, same) = prefix-Within s t (ground (arith, e)) in
    let first : d ≡ c = ground (arith, e) in (after, rw (first, same) refl)

has_prefix-append : (t after : List ℕ) → has_prefix (t ++ after) t ≡ true
unfolding has_prefix
has_prefix-append [] after = refl
has_prefix-append (c ∷ t) after = ground (arith, has_prefix-append t after)

prefix-contains : (s t : List ℕ) → has_prefix s t ≡ true → contains s t ≡ true
unfolding contains
prefix-contains [] t e = e
prefix-contains (d ∷ s) t e = ground (arith, e)

contains-append : (before t after : List ℕ) → contains (before ++ (t ++ after)) t ≡ true
unfolding contains
contains-append [] t after = prefix-contains (t ++ after) t (has_prefix-append t after)
contains-append (d ∷ before) t after = ground (arith, contains-append before t after)

contains-Within : (s t : List ℕ) → contains s t ≡ true → Within t s
unfolding contains
contains-Within [] t e = let (after, same) = prefix-Within [] t e in ([], after, same)
contains-Within (d ∷ s) t e = elim (Bool-cases (has_prefix (d ∷ s) t)) [
  | inl here ↦ let (after, same) = prefix-Within (d ∷ s) t here in ([], after, same)
  | inr further ↦
      let (before, after, same) = contains-Within s t (ground (arith, e, further)) in
      (d ∷ before, after, ap (λ x. d ∷ x) same)
]

-- A connection is let through exactly if it has no origin, or an origin that has the host somewhere in
-- it: also one of another site, if the host is a part of that site's name.
check_origin_lem :
    (origin host : List ℕ)
    → (check_origin origin host ≡ true) ↔ ((origin ≡ []) ⊎ Within host origin)
unfolding check_origin
check_origin_lem [] host = ((λ e. inl refl), λ o. refl)
check_origin_lem (c ∷ origin) host = (
  λ e. inr (contains-Within (c ∷ origin) host e),
  λ o. elim o [
    | inl empty ↦ absurd (ground (arith, empty))
    | inr (before, after, same) ↦ ap (λ s. contains s host) same ∙ contains-append before host after
  ],
)
