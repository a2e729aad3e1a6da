-- ===== src/Addressing/Parsing.antt =====
-- Addresses that are printed and parsed again.
use py2neo.Prelude.{
  ℕ, zero, suc, ◌==◌, ◌≡◌, ◌≢◌, ◌<◌, refl, true, false, Bool-cases, inl, inr, List, [], ◌∷◌, ◌++◌,
  Option, some, arith, All,
}
use py2neo.Prelude.Decimal.{decimal, decimal-Prints, IsDigit}
use py2neo.Addressing.{
  Address, ipv4, ipv6, Port, number, name, colon, left_bracket, right_bracket, partition,
  rpartition, contains, lstrip, parse, print,
}

-- A host that can be told from a port, and for IPv6 any host; the port a number, but not 0, which stands for none.
abbrev pub IsPlain : Address → Type 0
IsPlain (ipv4 [] port) = ⊥
IsPlain (ipv4 (c ∷ cs) (number zero)) = ⊥
IsPlain (ipv4 (c ∷ cs) (number (suc n))) = (c ≢ left_bracket) × (contains colon (c ∷ cs) ≡ false)
IsPlain (ipv4 (c ∷ cs) (name text)) = ⊥
IsPlain (ipv6 [] port flow scope) = ⊥
IsPlain (ipv6 (c ∷ cs) (number zero) flow scope) = ⊥
IsPlain (ipv6 (c ∷ cs) (number (suc n)) flow scope) = (flow ≡ 0) × (scope ≡ 0)
IsPlain (ipv6 (c ∷ cs) (name text) flow scope) = ⊥

same_code : (c : ℕ) → (c == c) ≡ true
same_code c = ground arith

partition-append :
    (c : ℕ) (host rest : List ℕ)
    → contains c host ≡ false
    → partition c (host ++ c ∷ rest) ≡ (host, rest)
partition-append c [] rest h = rw (same_code c) refl
partition-append c (d ∷ ds) rest h = elim (Bool-cases (d == c)) [
  | inl e ↦ let no : true ≡ false = rw e at h in absurd cc
  | inr e ↦ rw (e, partition-append c ds rest (rw e at h)) refl
]

contains-append : (c : ℕ) (xs ys : List ℕ) → contains c (xs ++ c ∷ ys) ≡ true
contains-append c [] ys = rw (same_code c) refl
contains-append c (d ∷ ds) ys = elim (Bool-cases (d == c)) [
  | inl e ↦ rw e refl
  | inr e ↦ rw e (contains-append c ds ys)
]

rpartition-append :
    (c : ℕ) (host rest : List ℕ)
    → contains c rest ≡ false
    → rpartition c (host ++ c ∷ rest) ≡ (host, rest)
rpartition-append c [] rest h = rw (h, same_code c) refl
rpartition-append c (d ∷ ds) rest h =
    rw (contains-append c ds rest, rpartition-append c ds rest h) refl

-- Digits are neither brackets nor colons.
digits-contains : (c : ℕ) (ds : List ℕ) → 57 < c → All IsDigit ds → contains c ds ≡ false
digits-contains c [] l h = refl
digits-contains c (d ∷ ds) l h = elim (Bool-cases (d == c)) [
  | inl e ↦ absurd (ground (arith, e, l, h.0))
  | inr e ↦ rw e (digits-contains c ds l h.1)
]

no-lstrip : (c : ℕ) (ds : List ℕ) → contains c ds ≡ false → lstrip c ds ≡ ds
no-lstrip c [] h = refl
no-lstrip c (d ∷ ds) h = elim (Bool-cases (d == c)) [
  | inl e ↦ let no : true ≡ false = rw e at h in absurd cc
  | inr e ↦ rw e refl
]

decimal-contains : (c n : ℕ) → 57 < c → contains c (decimal n) ≡ false
decimal-contains c n l =
    let (value, digits, some_digit) = decimal-Prints n in digits-contains c (decimal n) l digits

-- An address with a host, which for IPv4 has no colon and does not start with a bracket, and with a number other
-- than 0 as its port, and for IPv6 with two zeros at its end, is parsed again from its text, with
-- whatever defaults, if `int` reads the digits of a number as that number.
pub parse-print :
    (int : List ℕ → Option ℕ) (default_host : Option (List ℕ)) (default_port : Option Port)
    (a : Address)
    → ((n : ℕ) → int (decimal n) ≡ some n)
    → IsPlain a
    → parse int default_host default_port (print a) ≡ a
unfolding parse print
parse-print int dh dp (ipv4 [] port) reads h = absurd h
parse-print int dh dp (ipv4 (c ∷ cs) (number zero)) reads h = absurd h
parse-print int dh dp (ipv4 (c ∷ cs) (number (suc n))) reads h =
    let other : (c == left_bracket) ≡ false = ground (arith, h.0) in
    rw (other, partition-append colon (c ∷ cs) (decimal (suc n)) h.1, reads (suc n)) refl
parse-print int dh dp (ipv4 (c ∷ cs) (name text)) reads h = absurd h
parse-print int dh dp (ipv6 [] port flow scope) reads h = absurd h
parse-print int dh dp (ipv6 (c ∷ cs) (number zero) flow scope) reads h = absurd h
parse-print int dh dp (ipv6 (c ∷ cs) (number (suc n)) flow scope) reads h =
    rw
      (
        rpartition-append right_bracket (c ∷ cs) (colon ∷ decimal (suc n))
            (decimal-contains right_bracket (suc n) (omega arith)),
        no-lstrip colon (decimal (suc n)) (decimal-contains colon (suc n) (omega arith)),
        reads (suc n),
        h.0,
        h.1,
      )
      refl
parse-print int dh dp (ipv6 (c ∷ cs) (name text) flow scope) reads h = absurd h
