-- ===== src/Matching/Places.antt =====
-- The names of the parameters of a query: those of the two ends of a relationship, then one for each property.
use py2neo.Prelude.{ℕ, zero, suc, ◌≡◌, refl, ap, List, [], ◌∷◌, ◌++◌, All, arith, ◌<◌, ◌≢◌}
use py2neo.Prelude.Decimal.{decimal, decimal-Prints, IsDigit}
use py2neo.Errors.{codes}
use py2neo.Matching.Names.{Extends, decimal_apart}

abbrev pub place : ℕ → List ℕ
place zero = codes "x"
place (suc zero) = codes "y"
place (suc (suc i)) = decimal i

-- A number does not start with a letter.
letter_apart :
    (ds s t m : List ℕ) (c : ℕ) → All IsDigit ds → ds ≢ [] → 57 < c → m ≡ ds ++ s → m ≡ c ∷ t → ⊥
letter_apart [] s t m c digits some_digit l e f = some_digit refl
letter_apart (d ∷ ds) s t m c digits some_digit l e f =
    let same_first : d ≡ c = cc in omega (arith, same_first, l, digits.0)

decimal_letter : (i c : ℕ) (t m : List ℕ) → 57 < c → Extends (decimal i) m → m ≡ c ∷ t → ⊥
decimal_letter i c t m l (s, e, d) f =
    let (value, digits, some_digit) = decimal-Prints i in
    letter_apart (decimal i) s t m c digits some_digit l e f

heads_apart : (c d : ℕ) (s t m : List ℕ) → c ≢ d → m ≡ c ∷ s → m ≡ d ∷ t → ⊥
heads_apart c d s t m ne e f = let same_head : c ≡ d = cc in ne same_head

pub place_apart : (m : List ℕ) (i j : ℕ) → Extends (place i) m → Extends (place j) m → i ≡ j
place_apart m zero zero a b = refl
place_apart m zero (suc zero) (s, e, c) (t, f, d) =
    absurd (heads_apart 120 121 s t m (λ h. omega (arith, h)) e f)
place_apart m zero (suc (suc j)) (s, e, c) b = absurd (decimal_letter j 120 s m (omega arith) b e)
place_apart m (suc zero) zero (s, e, c) (t, f, d) =
    absurd (heads_apart 121 120 s t m (λ h. omega (arith, h)) e f)
place_apart m (suc zero) (suc zero) a b = refl
place_apart m (suc zero) (suc (suc j)) (s, e, c) b =
    absurd (decimal_letter j 121 s m (omega arith) b e)
place_apart m (suc (suc i)) zero a (t, f, d) = absurd (decimal_letter i 120 t m (omega arith) a f)
place_apart m (suc (suc i)) (suc zero) a (t, f, d) =
    absurd (decimal_letter i 121 t m (omega arith) a f)
place_apart m (suc (suc i)) (suc (suc j)) a b = ap (λ k. suc (suc k)) (decimal_apart m i j a b)
