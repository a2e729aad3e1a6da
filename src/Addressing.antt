-- ===== src/Addressing.antt =====
-- addressing.py: `Address`, with its parsing and printing. A text is the list of its code points. A port is a
-- number or a text. The builtin `int` of a text is a parameter: what it reads, if it does not raise; numbers
-- are from 0.
pub mod Parsing
mod Tests
use py2neo.Prelude.{
  ℕ, zero, suc, ◌==◌, Bool, true, false, if◌then◌else◌, List, [], ◌∷◌, ◌++◌, Option, none, some,
}
use py2neo.Prelude.Decimal.{decimal}
use py2neo.Errors.{codes}

pub data Port : Type 0 where
  number : ℕ → Port
  name : List ℕ → Port

-- IPv4Address and IPv6Address, with the last two parts of the latter.
pub data Address : Type 0 where
  ipv4 : List ℕ → Port → Address
  ipv6 : List ℕ → Port → ℕ → ℕ → Address

abbrev pub colon : ℕ
colon = 58

abbrev pub left_bracket : ℕ
left_bracket = 91

abbrev pub right_bracket : ℕ
right_bracket = 93

abbrev pub is_truthy : Port → Bool
is_truthy (number zero) = false
is_truthy (number (suc n)) = true
is_truthy (name []) = false
is_truthy (name (c ∷ cs)) = true

-- host or default_host or "localhost"
abbrev pub host_or : List ℕ → Option (List ℕ) → List ℕ
host_or (c ∷ cs) default_host = c ∷ cs
host_or [] none = codes "localhost"
host_or [] (some []) = codes "localhost"
host_or [] (some (c ∷ cs)) = c ∷ cs

abbrev pub or_zero : Option Port → Port
or_zero none = number 0
or_zero (some p) = if is_truthy p then p else number 0

-- port or default_port or 0
abbrev pub port_or : Port → Option Port → Port
port_or p default_port = if is_truthy p then p else or_zero default_port

abbrev pub port_of : Option ℕ → List ℕ → Port
port_of none text = name text
port_of (some n) text = number n

-- s.partition(":"), the parts around the separator
abbrev pub partition : ℕ → List ℕ → List ℕ × List ℕ
partition separator [] = ([], [])
partition separator (c ∷ cs) =
    let (host, rest) = partition separator cs in
    if c == separator then ([], cs) else (c ∷ host, rest)

abbrev pub contains : ℕ → List ℕ → Bool
contains c [] = false
contains c (d ∷ ds) = if d == c then true else contains c ds

-- s.rpartition("]"), the parts around the last separator; all is in the second part where there is none
abbrev pub rpartition : ℕ → List ℕ → List ℕ × List ℕ
rpartition separator [] = ([], [])
rpartition separator (c ∷ cs) =
    let (host, rest) = rpartition separator cs in
    if contains separator cs
    then (c ∷ host, rest)
    else if c == separator
    then ([], cs)
    else ([], c ∷ cs)

-- s.lstrip(":")
abbrev pub lstrip : ℕ → List ℕ → List ℕ
lstrip c [] = []
lstrip c (d ∷ ds) = let rest = lstrip c ds in if d == c then rest else d ∷ ds

module _ (int : List ℕ → Option ℕ) (default_host : Option (List ℕ))
    (default_port : Option Port) where
  abbrev pub parsed_ipv6 : List ℕ × List ℕ → Address
  parsed_ipv6 (host, rest) =
      let port = lstrip colon rest in
      ipv6 (host_or host default_host) (port_or (port_of (int port) port) default_port) 0 0

  abbrev pub parsed_ipv4 : List ℕ × List ℕ → Address
  parsed_ipv4 (host, port) =
      ipv4 (host_or host default_host) (port_or (port_of (int port) port) default_port)

  -- Address.parse
  unfoldable pub parse : List ℕ → Address
  parse [] = parsed_ipv4 (partition colon [])
  parse (c ∷ cs) =
      if c == left_bracket
      then parsed_ipv6 (rpartition right_bracket cs)
      else parsed_ipv4 (partition colon (c ∷ cs))

abbrev pub port_text : Port → List ℕ
port_text (number n) = decimal n
port_text (name text) = text

-- str(address)
unfoldable pub print : Address → List ℕ
print (ipv4 host port) = host ++ colon ∷ port_text port
print (ipv6 host port flow scope) = left_bracket ∷ (host ++ right_bracket ∷ colon ∷ port_text port)
