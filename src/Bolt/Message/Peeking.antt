-- ===== src/Bolt/Message/Peeking.antt =====
-- `BoltMessageReader.peek_message` on what is buffered.
use Prim.Native.Nat.{◌*◌, ◌/◌, ◌%◌}
use py2neo.Prelude.{
  lt→ltb, [], ℕ, zero, suc, refl, List, ◌≡◌, length, ◌++◌, ◌∷◌, ◌<◌, if◌then◌else◌, get_elem?, ltb,
  ◌&&◌, arith, ◌+◌, some, none, ◌∙◌, ap, length-append, drop-append, ◌≤◌, append_assoc, sym,
}
use py2neo.Wiring.{Wire, is_empty}
use py2neo.Bolt.Message.{nothing, tag, peek_chunk, at_peeked, fourth, peek_from, peek_message}
use py2neo.Bolt.Message.Chunks.{IsChunked, end, chunk}

peek_chunk_at :
    (before rest : List ℕ) (hi lo : ℕ)
    → peek_chunk (length before) (before ++ (hi ∷ lo ∷ rest)) ≡ (
        if ltb 0 (length rest) && ltb (hi * 256 + lo) (length rest)
        then some (hi * 256 + lo)
        else none)
unfolding peek_chunk
peek_chunk_at before rest hi lo =
    rw
      (
        drop-append before (hi ∷ lo ∷ rest) (length before) refl,
        length-append before (hi ∷ lo ∷ rest),
      )
      (ground arith)

length-IsChunked : {payload encoded : List ℕ} → IsChunked payload encoded → 2 ≤ length encoded
length-IsChunked (end p e) = omega (arith, ap length e)
length-IsChunked (chunk c payload' encoded' ne small p e more) = omega (arith, ap length e)

-- From the start of a chunk to the zero chunk; one byte behind it is needed.
peek_from-IsChunked :
    {payload encoded : List ℕ} (before rest bytes : List ℕ) (fuel p : ℕ)
    → IsChunked payload encoded
    → bytes ≡ before ++ (encoded ++ rest)
    → p ≡ length before
    → length encoded < fuel
    → peek_from fuel p bytes ≡ (if is_empty rest then nothing else fourth (get_elem? bytes 3))
unfolding peek_from
peek_from-IsChunked before rest bytes zero p e b q h = absurd (omega arith)
peek_from-IsChunked before rest bytes (suc fuel) p (end _ e) b q h =
    let found =
      ap (peek_chunk p) b
      ∙ ap (λ x. peek_chunk p (before ++ (x ++ rest))) e
      ∙ ap (λ x. peek_chunk x (before ++ (0 ∷ 0 ∷ rest))) q
      ∙ peek_chunk_at before rest 0 0 in
    rw found (zero_found rest)
  where
    zero_found :
        (rest : List ℕ)
        → at_peeked
            (λ r. peek_from fuel r bytes)
            p
            bytes
            (if ltb 0 (length rest) && ltb 0 (length rest) then some 0 else none)
          ≡ (if is_empty rest then nothing else fourth (get_elem? bytes 3))
    zero_found [] = refl
    zero_found (x ∷ xs) = ground arith
peek_from-IsChunked before rest bytes (suc fuel) p (chunk [] payload' encoded' ne small _ e more) b
      q h =
    absurd (ne refl)
peek_from-IsChunked before rest bytes (suc fuel) p
      (chunk (x ∷ xs) payload' encoded' ne small _ e more) b q h =
    let found =
      ap (peek_chunk p) placed
      ∙ ap (λ y. peek_chunk y (before ++ (header ++ behind))) q
      ∙ peek_chunk_at before behind (suc (length xs) / 256) (suc (length xs) % 256)
      ∙ full in
    rw found (
      peek_from-IsChunked (before ++ (header ++ x ∷ xs)) rest bytes fuel (p + (2 + suc (length xs)))
        more (placed ∙ sym (append_assoc before (header ++ x ∷ xs) (encoded' ++ rest)))
        (omega (arith, q, length-append before (header ++ x ∷ xs)))
        (omega (arith, h, ap length e, length-append (x ∷ xs) encoded')))
  where
    header : List ℕ
    header = suc (length xs) / 256 ∷ suc (length xs) % 256 ∷ []

    behind : List ℕ
    behind = (x ∷ xs) ++ (encoded' ++ rest)

    placed : bytes ≡ before ++ (header ++ behind)
    placed =
        b
        ∙ ap (λ y. before ++ (y ++ rest)) e
        ∙ ap (λ y. before ++ (header ++ y)) (append_assoc (x ∷ xs) encoded' rest)

    full :
        (if ltb 0 (length behind)
            && ltb (suc (length xs) / 256 * 256 + suc (length xs) % 256) (length behind)
          then some (suc (length xs) / 256 * 256 + suc (length xs) % 256)
          else none)
        ≡ some (suc (length xs))
    full = ground (
      arith,
      length-append (x ∷ xs) (encoded' ++ rest),
      length-append encoded' rest,
      length-IsChunked more,
    )

-- With a whole message buffered whose first chunk holds at least two bytes, `peek_message` gives the
-- message's tag, which is its second byte, provided that at least one byte is buffered behind the
-- message. Where the message is the last thing in the buffer it gives nothing.
peek_message-IsChunked :
    (m t : ℕ) (c payload' encoded' rest : List ℕ) (w : Wire)
    → length (m ∷ t ∷ c) < 65536
    → IsChunked payload' encoded'
    → w.input
      ≡ length (m ∷ t ∷ c) / 256 ∷ length (m ∷ t ∷ c) % 256 ∷ ((m ∷ t ∷ c) ++ (encoded' ++ rest))
    → peek_message w ≡ (if is_empty rest then nothing else tag t)
unfolding peek_message
peek_message-IsChunked m t c payload' encoded' rest w small more e =
    peek_from-IsChunked [] rest w.input (suc (length w.input)) 0 first
      (e
        ∙ ap (λ x. length (m ∷ t ∷ c) / 256 ∷ length (m ∷ t ∷ c) % 256 ∷ x)
            (sym (append_assoc (m ∷ t ∷ c) encoded' rest)))
      refl
      (omega (
        arith,
        ap length e,
        length-append (m ∷ t ∷ c) encoded',
        length-append encoded' rest,
        length-append (m ∷ t ∷ c) (encoded' ++ rest),
      ))
    ∙ ap (λ x. if is_empty rest then nothing else fourth (get_elem? x 3)) e
  where
    first :
        IsChunked
          ((m ∷ t ∷ c) ++ payload')
          (length (m ∷ t ∷ c) / 256 ∷ length (m ∷ t ∷ c) % 256 ∷ ((m ∷ t ∷ c) ++ encoded'))
    first = chunk (m ∷ t ∷ c) payload' encoded' (λ x. cc) small refl refl more

-- When a null message stands first in the buffer, `peek_message` does not look behind it: what it gives
-- as a tag is the second byte of the size of the chunk that follows, and with three bytes buffered it
-- raises `IndexError`.
peek_message-null :
    (hi : ℕ) (rest : List ℕ) (w : Wire)
    → w.input ≡ 0 ∷ 0 ∷ hi ∷ rest
    → peek_message w ≡ fourth (get_elem? rest 0)
unfolding peek_message peek_from
peek_message-null hi rest w e =
    rw e (rw (peek_chunk_at [] (hi ∷ rest) 0 0) (rw (lt→ltb 0 (suc (length rest)) (omega arith))))
