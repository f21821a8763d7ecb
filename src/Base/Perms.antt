-- ===== src/Base/Perms.antt =====
-- Permutations of lists and the filter by a Boolean test.
use Prim.Native.Nat.{◌≤◌}
use mathlib.Core.Path.{◌≡◌, refl, ap, subst, ◌∙◌}
use mathlib.Core.Logic.{inl, inr}
use mathlib.Core.Bool.{Bool, true, false}
use mathlib.Core.List.{List, [], ◌∷◌, ◌++◌, map, Permᴰ}
use mathlib.Core.List.Permᴰ.{nil, cons, swap, trans, middle, symm, refl as same}
use native.Mathlib.Omega.{arith}
use whatsupp.Base.Tests.{Bool-cases}
use whatsupp.Base.Lists.{length, keep_if}

module _ {ℓ} {A : Type ℓ} where
  pub Permᴰ-keep_if :
      (p : A → Bool) {l l' : List A} → Permᴰ l l' → Permᴰ (keep_if p l) (keep_if p l')
  Permᴰ-keep_if p nil = nil
  Permᴰ-keep_if p (cons {a = a} {b = b} e d) =
      let rest = Permᴰ-keep_if p d in
      elim (Bool-cases (p a)) [
        | inl kept ↦ rw (kept, subst (λ x. p x ≡ true) e kept) (cons e rest)
        | inr gone ↦ rw (gone, subst (λ x. p x ≡ false) e gone) rest
      ]
  Permᴰ-keep_if p (swap {a = a} {b = b} {a' = a'} {b' = b'} {l = l} e f) =
      let swapped : Permᴰ (keep_if p (a ∷ b ∷ l)) (keep_if p (b ∷ a ∷ l)) =
        elim (Bool-cases (p a)) [
          | inl kept ↦ elim (Bool-cases (p b)) [
            | inl also ↦ rw (kept, also) (swap refl refl)
            | inr lost ↦ rw (kept, lost) (same _)
          ]
          | inr gone ↦ rw gone (same _)
        ] in
      let from = keep_if p (a ∷ b ∷ l) in
      subst (λ y. Permᴰ from (keep_if p (y ∷ b' ∷ l))) f
        (subst (λ y. Permᴰ from (keep_if p (b ∷ y ∷ l))) e swapped)
  Permᴰ-keep_if p (trans d d') = trans (Permᴰ-keep_if p d) (Permᴰ-keep_if p d')

  Permᴰ-length : {l l' : List A} → Permᴰ l l' → length l ≡ length l'
  Permᴰ-length nil = refl
  Permᴰ-length (cons e d) = omega (arith, Permᴰ-length d)
  Permᴰ-length (swap e f) = refl
  Permᴰ-length (trans d d') = Permᴰ-length d ∙ Permᴰ-length d'

  -- A list of at most one entry has no other order.
  pub short_perm : {l l' : List A} → Permᴰ l l' → length l ≤ 1 → l ≡ l'
  short_perm nil h = refl
  short_perm (cons {l₁ = l} e d) h = rw (e, short_perm d (omega arith)) refl
  short_perm (swap e f) h = absurd (omega arith)
  short_perm (trans d d') h = short_perm d h ∙ short_perm d' (omega (arith, Permᴰ-length d))

  pub keep_if-map :
      {B : Type ℓ} (f : A → B) (p : B → Bool) (xs : List A)
      → keep_if p (map f xs) ≡ map f (keep_if (λ x. p (f x)) xs)
  keep_if-map f p [] = refl
  keep_if-map f p (x ∷ xs) = elim (Bool-cases (p (f x))) [
    | inl kept ↦ rw kept (ap (λ ys. f x ∷ ys) (keep_if-map f p xs))
    | inr gone ↦ rw gone (keep_if-map f p xs)
  ]

  pub keep_if_comm :
      (p q : A → Bool) (xs : List A) → keep_if p (keep_if q xs) ≡ keep_if q (keep_if p xs)
  keep_if_comm p q [] = refl
  keep_if_comm p q (x ∷ xs) =
      let ih = keep_if_comm p q xs in
      elim (Bool-cases (p x)) [
        | inl kept ↦ elim (Bool-cases (q x)) [
          | inl also ↦ rw (kept, also) (rw kept (ap (λ ys. x ∷ ys) ih))
          | inr lost ↦ rw (kept, lost) ih
        ]
        | inr gone ↦ elim (Bool-cases (q x)) [
          | inl also ↦ rw (gone, also) (rw gone ih)
          | inr lost ↦ rw (gone, lost) ih
        ]
      ]

  pub swap_front : (xs ys zs : List A) → Permᴰ (xs ++ (ys ++ zs)) (ys ++ (xs ++ zs))
  swap_front [] ys zs = same (ys ++ zs)
  swap_front (x ∷ xs) ys zs =
      trans (cons refl (swap_front xs ys zs)) (symm (middle x ys (xs ++ zs)))
