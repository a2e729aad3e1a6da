-- ===== src/Addressing/Tests.antt =====
-- Addresses of servers, and the round trip at one of them.
use py2neo.Prelude.{
  ℕ, ◌≡◌, ◌≢◌, refl, ap, Bool, true, ◌&&◌, leb, if◌then◌else◌, List, [], ◌∷◌, Option, none, some,
  All, arith,
}
use py2neo.Prelude.Decimal.{decimal, decimal-Prints, number_from, IsDigit}
use py2neo.Errors.{codes}
use py2neo.Addressing.{Address, ipv4, ipv6, number, name, parse, print}
use py2neo.Addressing.Parsing.{parse-print}

abbrev all_digits : List ℕ → Bool
all_digits [] = true
all_digits (c ∷ cs) = (leb 48 c && leb c 57) && all_digits cs

-- Digits alone, and at least one.
abbrev int : List ℕ → Option ℕ
int [] = none
int (c ∷ cs) = if all_digits (c ∷ cs) then some (number_from 0 (c ∷ cs)) else none

all_digits_lem : (ds : List ℕ) → All IsDigit ds → all_digits ds ≡ true
all_digits_lem [] h = refl
all_digits_lem (c ∷ cs) h =
    let rest : all_digits cs ≡ true = all_digits_lem cs h.1 in ground (arith, rest, h.0)

int-decimal : (n : ℕ) → int (decimal n) ≡ some n
int-decimal n =
    let (value, digits, some_digit) = decimal-Prints n in go (decimal n) value digits some_digit
  where
    go : (ds : List ℕ) → number_from 0 ds ≡ n → All IsDigit ds → ds ≢ [] → int ds ≡ some n
    go [] v d e = absurd (e refl)
    go (c ∷ cs) v d e = rw (all_digits_lem (c ∷ cs) d) (ap some v)

only_host :
    parse int none (some (name (codes "bolt"))) (codes "db")
    ≡ ipv4 (codes "db") (name (codes "bolt"))
unfolding parse
only_host = refl

nothing_at_all : parse int none none [] ≡ ipv4 (codes "localhost") (number 0)
unfolding parse
nothing_at_all = refl

abbrev loopback : Address
loopback = ipv6 (codes "::1") (number 7687) 0 0

loopback_text : print loopback ≡ codes "[::1]:7687"
unfolding print decimal
loopback_text = refl

parse-print_example : parse int (some (codes "db")) none (print loopback) ≡ loopback
parse-print_example = parse-print int (some (codes "db")) none loopback int-decimal (refl, refl)
