-- ===== src/Base/Lists.antt =====
-- Lists measured and cut by native numbers, filters by a Boolean test, and predicates by recursion.
use Prim.Native.Nat.{ℕ, zero, suc, ◌+◌, ◌-◌, ◌≤◌}
use mathlib.Core.Path.{◌≡◌, refl, sym, ap}
use mathlib.Core.Logic.{◌⊎◌, inl, inr}
use mathlib.Core.Bool.{Bool, true}
use mathlib.Core.List.{List, [], ◌∷◌, ◌++◌, map}
use native.Mathlib.Omega.{arith}
use whatsupp.Base.Tests.{if◌then◌else◌, Bool-cases}

module _ {ℓ} {A : Type ℓ} where
  abbrev pub length : List A → ℕ
  length [] = 0
  length (x ∷ xs) = suc (length xs)

  abbrev pub drop : ℕ → List A → List A
  drop zero xs = xs
  drop (suc n) [] = []
  drop (suc n) (x ∷ xs) = drop n xs

  abbrev pub take : ℕ → List A → List A
  take zero xs = []
  take (suc n) [] = []
  take (suc n) (x ∷ xs) = x ∷ take n xs

  pub length-append : (xs ys : List A) → length (xs ++ ys) ≡ length xs + length ys
  length-append [] ys = omega arith
  length-append (x ∷ xs) ys = omega (arith, length-append xs ys)

  pub length-drop : (n : ℕ) (xs : List A) → length (drop n xs) ≡ length xs - n
  length-drop zero xs = omega arith
  length-drop (suc n) [] = omega arith
  length-drop (suc n) (x ∷ xs) = omega (arith, length-drop n xs)

  pub drop-append : (n : ℕ) (xs ys : List A) → n ≤ length xs → drop n (xs ++ ys) ≡ drop n xs ++ ys
  drop-append zero xs ys h = refl
  drop-append (suc n) [] ys h = elim h [ ]
  drop-append (suc n) (x ∷ xs) ys h = drop-append n xs ys (omega arith)

  -- The entries that pass a test, in their order.
  abbrev pub keep_if : (A → Bool) → List A → List A
  keep_if p [] = []
  keep_if p (x ∷ xs) = let rest = keep_if p xs in if p x then x ∷ rest else rest

module _ {ℓ κ} {A : Type ℓ} (P : A → Type κ) where
  abbrev pub All : List A → Type κ
  All [] = Unit
  All (x ∷ xs) = P x × All xs

  pub All-append : (xs ys : List A) → All xs → All ys → All (xs ++ ys)
  All-append [] ys hx hy = hy
  All-append (x ∷ xs) ys hx hy = (hx.0, All-append xs ys hx.1 hy)

  pub All-drop : (n : ℕ) (xs : List A) → All xs → All (drop n xs)
  All-drop zero xs h = h
  All-drop (suc n) [] h = h
  All-drop (suc n) (x ∷ xs) h = All-drop n xs h.1

module _ {A : Type 0} where
  -- The entry stands in the list.
  abbrev pub Listed : A → List A → Type 0
  Listed x [] = ⊥
  Listed x (y ∷ ys) = (x ≡ y) ⊎ Listed x ys

  pub Listed-left : (x : A) (xs ys : List A) → Listed x xs → Listed x (xs ++ ys)
  Listed-left x [] ys h = absurd h
  Listed-left x (y ∷ xs) ys (inl e) = inl e
  Listed-left x (y ∷ xs) ys (inr h) = inr (Listed-left x xs ys h)

  pub Listed-right : (x : A) (xs ys : List A) → Listed x ys → Listed x (xs ++ ys)
  Listed-right x [] ys h = h
  Listed-right x (y ∷ xs) ys h = inr (Listed-right x xs ys h)

  pub Listed-take : (x : A) (n : ℕ) (xs : List A) → Listed x (take n xs) → Listed x xs
  Listed-take x zero xs h = absurd h
  Listed-take x (suc n) [] h = h
  Listed-take x (suc n) (y ∷ ys) (inl same) = inl same
  Listed-take x (suc n) (y ∷ ys) (inr h) = inr (Listed-take x n ys h)

  pub keep_if-Listed :
      (p : A → Bool) (x : A) (xs : List A) → Listed x xs → p x ≡ true → Listed x (keep_if p xs)
  keep_if-Listed p x [] h e = absurd h
  keep_if-Listed p x (y ∷ ys) (inl same) e = rw (← same, e) (inl refl)
  keep_if-Listed p x (y ∷ ys) (inr h) e = elim (Bool-cases (p y)) [
    | inl kept ↦ rw kept (inr (keep_if-Listed p x ys h e))
    | inr left ↦ rw left (keep_if-Listed p x ys h e)
  ]

  pub Listed-keep_if :
      (p : A → Bool) (x : A) (xs : List A) → Listed x (keep_if p xs) → Listed x xs × (p x ≡ true)
  Listed-keep_if p x [] h = absurd h
  Listed-keep_if p x (y ∷ ys) h = elim (Bool-cases (p y)) [
    | inl kept ↦ elim (rw kept at h) [
      | inl same ↦ (inl same, rw same kept)
      | inr later ↦ let (found, e) = Listed-keep_if p x ys later in (inr found, e)
    ]
    | inr left ↦ let (found, e) = Listed-keep_if p x ys (rw left at h) in (inr found, e)
  ]

module _ {A B : Type 0} (f : A → B) where
  pub map-Listed : (x : A) (xs : List A) → Listed x xs → Listed (f x) (map f xs)
  map-Listed x [] h = absurd h
  map-Listed x (y ∷ ys) (inl same) = inl (ap f same)
  map-Listed x (y ∷ ys) (inr h) = inr (map-Listed x ys h)

  pub Listed-map : (b : B) (xs : List A) → Listed b (map f xs) → (x : A) × Listed x xs × (f x ≡ b)
  Listed-map b [] h = absurd h
  Listed-map b (y ∷ ys) (inl same) = (y, inl refl, sym same)
  Listed-map b (y ∷ ys) (inr h) = let (x, found, e) = Listed-map b ys h in (x, inr found, e)
