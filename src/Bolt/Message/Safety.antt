-- ===== src/Bolt/Message/Safety.antt =====
-- On any input, `read_message` ends in a message or in an error that it means to raise.
use Prim.Native.Nat.{◌*◌}
use mathlib.Core.List.{flatten, []}
use py2neo.Prelude.{
  ℕ, zero, suc, refl, ◌==◌, List, length, ◌<◌, ◌≢◌, ◌≡◌, [], ◌++◌, ◌⊎◌, inl, arith, ◌≤◌, ◌∷◌, take,
  Bool-cases, inr, ◌&&◌, ap, ◌+◌, drop, sym, take-append-drop, length-take_of_le, ◌∙◌, length-drop,
}
use native.Mathlib.Decide.{dec_le}
use py2neo.Wiring
use py2neo.Wiring.{Wire}
use py2neo.Wiring.Reading.{stream, IsCounted, read-ReadFails}
use py2neo.Bolt.Message.{
  PackStream, Message, ReadFault, assertion_error, unpack_error, out_of_fuel, Collect,
  at_zero_chunk, at_chunk, at_header, collect, decode, decode_all, read_message, ok, err,
  header_fault,
}
use py2neo.Bolt.Message.Reading.{read_eq, with_first, flatten-concat, after}

-- The errors that would be faults of the reader's own.
abbrev pub IsMeant : ReadFault → Type 0
IsMeant assertion_error = ⊥
IsMeant unpack_error = ⊥
IsMeant out_of_fuel = ⊥
IsMeant _ = Unit

abbrev IsSafe : Message (List (List ℕ)) × Wire → Type 0
IsSafe (ok chunks, w) = flatten chunks ≢ []
IsSafe (err e, w) = IsMeant e

-- No chunk yet, or chunks that hold some byte.
abbrev Begun : List (List ℕ) → Type 0
Begun chunks = (chunks ≡ []) ⊎ (flatten chunks ≢ [])

zero_chunk-IsSafe :
    (again : Collect) (chunks : List (List ℕ)) (w : Wire)
    → Begun chunks
    → IsSafe (again [] w)
    → IsSafe (at_zero_chunk again chunks w)
zero_chunk-IsSafe again [] w b h = h
zero_chunk-IsSafe again (c ∷ cs) w (inl e) h = cc
zero_chunk-IsSafe again (c ∷ cs) w (inr ne) h = ne

append-ne : (xs ys : List ℕ) → ys ≢ [] → xs ++ ys ≢ []
append-ne [] ys h e = h e
append-ne (x ∷ xs) ys h e = cc

take-ne : (n : ℕ) (xs : List ℕ) → 0 < n → n ≤ length xs → take n xs ≢ []
take-ne zero xs h k e = absurd (omega arith)
take-ne (suc n) [] h k e = absurd (omega arith)
take-ne (suc n) (x ∷ xs) h k e = cc

-- A read that fails is reported by an error that is meant.
failed_read :
    (n : ℕ) (w : Wire)
    → IsCounted w
    → length (stream w) < n
    → (e : Wiring.Fault) × (Wiring.read n w ≡ (Wiring.err e, after n w))
failed_read n w c h = elim (read-ReadFails n w c h).outcome [
  | inl (e, _) ↦ (Wiring.broken_wire, with_first (Wiring.read n w) e)
  | inr e ↦ (Wiring.blocked, with_first (Wiring.read n w) e)
]

header_fault-IsMeant : (e : Wiring.Fault) → IsMeant (header_fault e)
header_fault-IsMeant Wiring.blocked = tt
header_fault-IsMeant _ = tt

module _ (again : Collect) (bound : ℕ)
    (ih : (chunks : List (List ℕ)) (w : Wire)
      → Begun chunks
      → IsCounted w
      → length (stream w) < bound
      → IsSafe (again chunks w))
    (chunks : List (List ℕ)) (begun : Begun chunks) where
  body-IsSafe :
      (size : ℕ) (w : Wire)
      → 0 < size
      → IsCounted w
      → length (stream w) < bound
      → IsSafe (at_chunk again chunks (Wiring.read size w))
  body-IsSafe size w pos c h = elim (dec_le size (length (stream w))) [
    | yes enough ↦
        let bytes = take size (stream w) in
        let (e, s, c') =
          read_eq size w bytes (drop size (stream w)) c (sym (take-append-drop size (stream w)))
            (sym (length-take_of_le size (stream w) enough)) in
        rw e (
          ih (chunks ++ bytes ∷ []) (after size w)
            (inr (λ x.
              append-ne (flatten chunks) bytes (take-ne size (stream w) pos enough)
                (sym (flatten-concat chunks bytes) ∙ x)))
            c' (omega (arith, h, ap length s, length-drop size (stream w))))
    | no short ↦ let (f, e) = failed_read size w c (omega arith) in rw e tt
  ]

  header-IsSafe :
      (w : Wire) (s : List ℕ)
      → stream w ≡ s
      → IsCounted w
      → length s < suc bound
      → IsSafe (at_header again chunks (Wiring.read 2 w))
  header-IsSafe w (hi ∷ lo ∷ rest) s c h =
      let (e, s', c') = read_eq 2 w (hi ∷ lo ∷ []) rest c s refl in
      rw e (elim (Bool-cases (hi == lo && lo == 0)) [
        | inl done ↦ rw done (
            zero_chunk-IsSafe again chunks (after 2 w) begun
              (ih [] (after 2 w) (inl refl) c' (omega (arith, h, ap length s'))))
        | inr more ↦ rw more (
            body-IsSafe (hi * 256 + lo) (after 2 w) (ground arith) c'
              (omega (arith, h, ap length s')))
      ])
  header-IsSafe w [] s c h =
      let (f, e) = failed_read 2 w c (omega (arith, ap length s)) in rw e (header_fault-IsMeant f)
  header-IsSafe w (b ∷ []) s c h =
      let (f, e) = failed_read 2 w c (omega (arith, ap length s)) in rw e (header_fault-IsMeant f)

collect-IsSafe :
    (fuel : ℕ) (chunks : List (List ℕ)) (w : Wire)
    → Begun chunks
    → IsCounted w
    → length (stream w) < fuel
    → IsSafe (collect fuel chunks w)
unfolding collect
collect-IsSafe zero chunks w b c h = absurd (omega arith)
collect-IsSafe (suc fuel) chunks w b c h =
    header-IsSafe (collect fuel) fuel (collect-IsSafe fuel) chunks b w (stream w) refl c h

module _ {V : Type 0} (ps : PackStream V) where
  abbrev pub Meant : Message (ℕ × List V) → Type 0
  Meant (ok m) = Unit
  Meant (err e) = IsMeant e

  decode-Meant : (message : List ℕ) → message ≢ [] → Meant (decode ps message)
  unfolding decode
  decode-Meant [] ne = ne refl
  decode-Meant (b ∷ []) ne = ground arith
  decode-Meant (b ∷ c ∷ bs) ne = ground arith

  decode_all-Meant : (r : Message (List (List ℕ)) × Wire) → IsSafe r → Meant (decode_all ps r).0
  decode_all-Meant (ok chunks, w) h = decode-Meant (flatten chunks) h
  decode_all-Meant (err e, w) h = h

  -- Whatever the server sends and however the socket fails, the loop of `read_message` ends, the
  -- assertion that a message is never empty holds, and the size of a chunk is always two bytes.
  pub read_message-Meant : (w : Wire) → IsCounted w → Meant (read_message ps w).0
  unfolding read_message
  read_message-Meant w c =
      decode_all-Meant (collect (suc (length (stream w))) [] w)
        (collect-IsSafe (suc (length (stream w))) [] w (inl refl) c (omega arith))
