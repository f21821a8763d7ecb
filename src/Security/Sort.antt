-- ===== src/Security/Sort.antt =====
-- sort.Ints: an ascending list of the same numbers.
use whatsupp.Base.{
  ℕ, suc, ◌≤◌, ◌<◌, ◌≡◌, refl, subst, List, [], ◌∷◌, arith, leb, if◌then◌else◌, ◌==◌,
}

insert : ℕ → List ℕ → List ℕ
insert x [] = x ∷ []
insert x (y ∷ ys) = let rest = insert x ys in if leb x y then x ∷ y ∷ ys else y ∷ rest

unfoldable pub sort : List ℕ → List ℕ
unfolding insert
sort [] = []
sort (x ∷ xs) = insert x (sort xs)

-- How often a number occurs.
abbrev pub count : ℕ → List ℕ → ℕ
count a [] = 0
count a (x ∷ xs) = let rest = count a xs in if x == a then suc rest else rest

-- Ascending, and every number at least `lo`.
abbrev pub Ascending : ℕ → List ℕ → Type 0
Ascending lo [] = Unit
Ascending lo (x ∷ xs) = (lo ≤ x) × Ascending x xs

count-insert : (a x : ℕ) (xs : List ℕ) → count a (insert x xs) ≡ count a (x ∷ xs)
unfolding insert
count-insert a x [] = refl
count-insert a x (y ∷ ys) = ground (arith, count-insert a x ys)

pub count-sort : (a : ℕ) (xs : List ℕ) → count a (sort xs) ≡ count a xs
unfolding sort
count-sort a [] = refl
count-sort a (x ∷ xs) = ground (arith, count-insert a x (sort xs), count-sort a xs)

Ascending-insert : (lo x : ℕ) (xs : List ℕ) → lo ≤ x → Ascending lo xs → Ascending lo (insert x xs)
unfolding insert
Ascending-insert lo x [] h s = (h, tt)
Ascending-insert lo x (y ∷ ys) h s = ground (arith, Ascending-insert y x ys)

pub Ascending-sort : (xs : List ℕ) → Ascending 0 (sort xs)
unfolding sort
Ascending-sort [] = tt
Ascending-sort (x ∷ xs) = Ascending-insert 0 x (sort xs) (omega arith) (Ascending-sort xs)

Ascending-below : (p lo : ℕ) (xs : List ℕ) → Ascending lo xs → p < lo → count p xs ≡ 0
Ascending-below p lo [] h lt = refl
Ascending-below p lo (x ∷ xs) (le, h) lt =
    ground (arith, Ascending-below p x xs h (omega arith), lt, le)

-- Ascending lists in which each number occurs as often are the same.
pub Ascending-unique :
    (lo : ℕ) (xs ys : List ℕ)
    → Ascending lo xs
    → Ascending lo ys
    → ((p : ℕ) → count p xs ≡ count p ys)
    → xs ≡ ys
Ascending-unique lo [] [] hx hy same = refl
Ascending-unique lo [] (y ∷ ys) hx hy same = absurd (ground (arith, same y))
Ascending-unique lo (x ∷ xs) [] hx hy same = absurd (ground (arith, same x))
Ascending-unique lo (x ∷ xs) (y ∷ ys) (lx, hx) (ly, hy) same =
    let equal : x ≡ y =
      ground (arith, same x, same y, Ascending-below x y ys hy, Ascending-below y x xs hx) in
    let rest =
      Ascending-unique y xs ys (subst (λ v. Ascending v xs) equal hx) hy
        (λ p. ground (arith, equal, same p)) in
    rw (equal, rest) refl
