-- ===== src/Prelude/Decimal.antt =====
-- Numbers as their decimal digits, and texts as lists of code points.
use Prim.Native.Nat.{ℕ, zero, suc, ◌+◌, ◌-◌, ◌*◌, ◌/◌, ◌%◌, ◌≤◌}
use mathlib.Core.Path.{◌≡◌, refl, ap, ◌∙◌, sym}
use mathlib.Core.Logic.{◌≢◌, inl, inr}
use mathlib.Core.List.{List, [], ◌∷◌, ◌++◌}
use native.Mathlib.Omega.{arith}
use py2neo.Prelude.Tests.{ltb, if◌then◌else◌, Bool-cases}
use py2neo.Prelude.Lists.{All}

abbrev pub zero_digit : ℕ
zero_digit = 48

-- The digits of a number; as many rounds as the number says are more than enough.
unfoldable pub digits : ℕ → ℕ → List ℕ
digits zero n = (zero_digit + n) ∷ []
digits (suc fuel) n =
    let front = digits fuel (n / 10) in
    if ltb n 10 then (zero_digit + n) ∷ [] else front ++ (zero_digit + n % 10) ∷ []

-- "%d" % n
unfoldable pub decimal : ℕ → List ℕ
unfolding digits
decimal n = digits n n

-- The number that digits mean, after those that were read.
abbrev pub number_from : ℕ → List ℕ → ℕ
number_from acc [] = acc
number_from acc (c ∷ cs) = number_from (acc * 10 + (c - zero_digit)) cs

pub number_from-append :
    (acc : ℕ) (xs ys : List ℕ) → number_from acc (xs ++ ys) ≡ number_from (number_from acc xs) ys
number_from-append acc [] ys = refl
number_from-append acc (x ∷ xs) ys = number_from-append (acc * 10 + (x - zero_digit)) xs ys

abbrev pub IsDigit : ℕ → Type 0
IsDigit c = (48 ≤ c) × (c ≤ 57)

All-snoc : (xs : List ℕ) (c : ℕ) → All IsDigit xs → IsDigit c → All IsDigit (xs ++ c ∷ [])
All-snoc [] c h d = (d, tt)
All-snoc (x ∷ xs) c h d = (h.0, All-snoc xs c h.1 d)

-- The digits are digits, there is one, and they mean the number.
abbrev Prints : ℕ → List ℕ → Type 0
Prints n ds = (number_from 0 ds ≡ n) × All IsDigit ds × (ds ≢ [])

snoc-ne-nil : (xs : List ℕ) (c : ℕ) → (xs ++ c ∷ []) ≢ []
snoc-ne-nil [] c h = cc
snoc-ne-nil (x ∷ xs) c h = cc

digits-Prints : (fuel n : ℕ) → n ≤ fuel → Prints n (digits fuel n)
unfolding digits
digits-Prints zero n h = (omega arith, (omega arith, tt), λ e. cc)
digits-Prints (suc fuel) n h = elim (Bool-cases (ltb n 10)) [
  | inl small ↦ rw small (omega arith, (ground (arith, small), tt), λ e. cc)
  | inr large ↦ rw large (
      let (value, all, one) = digits-Prints fuel (n / 10) (ground (arith, large)) in
      (
        number_from-append 0 (digits fuel (n / 10)) ((zero_digit + n % 10) ∷ [])
            ∙ omega (arith, value),
        All-snoc (digits fuel (n / 10)) (zero_digit + n % 10) all (omega arith),
        snoc-ne-nil (digits fuel (n / 10)) (zero_digit + n % 10),
      ))
]

pub decimal-Prints : (n : ℕ) → Prints n (decimal n)
unfolding decimal
decimal-Prints n = digits-Prints n n (omega arith)

pub decimal_injective : (m n : ℕ) → decimal m ≡ decimal n → m ≡ n
decimal_injective m n e = sym (decimal-Prints m).0 ∙ ap (number_from 0) e ∙ (decimal-Prints n).0
