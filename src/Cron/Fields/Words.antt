-- ===== src/Cron/Fields/Words.antt =====
-- internal/hub/cron.go: the words of a text without spaces in them.
use whatsupp.Base.{ℕ, ◌<◌, ◌≡◌, refl, ap, ◌∙◌, false, [], ◌∷◌, ◌++◌, arith, All}
use whatsupp.Cron.Text.{Codes, is_space, prepend, field_before, fields}
use whatsupp.Cron.Fields.Digits.{decimal}

unfoldable pub NotSpace : ℕ → Type 0
NotSpace c = is_space c ≡ false

pub decimal-NotSpace : (n : ℕ) → n < 100 → All NotSpace (decimal n)
unfolding decimal NotSpace is_space
decimal-NotSpace n h = ground arith

pub fields-cons :
    (c d : ℕ) (cs : Codes)
    → is_space c ≡ false
    → is_space d ≡ false
    → fields (c ∷ d ∷ cs) ≡ prepend c (fields (d ∷ cs))
unfolding fields field_before
fields-cons c d cs s s' = rw (s, s') refl

pub fields-word :
    (c : ℕ) (w cs : Codes)
    → All NotSpace (c ∷ w)
    → fields ((c ∷ w) ++ 32 ∷ cs) ≡ (c ∷ w) ∷ fields cs
unfolding fields field_before NotSpace
fields-word c [] cs (s, ss) = rw s (unfold is_space in refl)
fields-word c (d ∷ w) cs (s, ss) =
    fields-cons c d (w ++ 32 ∷ cs) s ss.0 ∙ ap (prepend c) (fields-word d w cs ss)

pub fields-last : (c : ℕ) (w : Codes) → All NotSpace (c ∷ w) → fields (c ∷ w) ≡ (c ∷ w) ∷ []
unfolding fields field_before NotSpace
fields-last c [] (s, ss) = rw s refl
fields-last c (d ∷ w) (s, ss) = fields-cons c d w s ss.0 ∙ ap (prepend c) (fields-last d w ss)

unfoldable pub IsCons : Codes → Type 0
IsCons [] = ⊥
IsCons (c ∷ cs) = Unit

pub decimal-IsCons : (n : ℕ) → IsCons (decimal n)
unfolding decimal IsCons
decimal-IsCons n = ground arith

pub IsCons-append : (w cs : Codes) → IsCons w → IsCons (w ++ cs)
unfolding IsCons
IsCons-append [] cs i = absurd i
IsCons-append (c ∷ w) cs i = tt

pub fields-cut : (w cs : Codes) → IsCons w → All NotSpace w → fields (w ++ 32 ∷ cs) ≡ w ∷ fields cs
unfolding IsCons
fields-cut [] cs i s = absurd i
fields-cut (c ∷ w) cs i s = fields-word c w cs s

pub fields-end : (w : Codes) → IsCons w → All NotSpace w → fields w ≡ w ∷ []
unfolding IsCons
fields-end [] i s = absurd i
fields-end (c ∷ w) i s = fields-last c w s
