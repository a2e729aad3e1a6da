-- ===== src/Bolt/Message/Reading.antt =====
-- `BoltMessageReader.read_message` reads any chunked encoding of a message, however it is chunked.
use Prim.Native.Nat.{◌*◌, ◌/◌, ◌%◌, suc}
use mathlib.Core.List.{flatten}
use py2neo.Wiring
use py2neo.Wiring.{Wire}
use py2neo.Wiring.Reading.{stream, IsCounted, read-Reads}
use py2neo.Bolt.Message.{
  PackStream, Message, Collect, at_zero_chunk, at_chunk, at_header, collect, decode, read_message,
  ok, false,
}
use py2neo.Bolt.Message.Chunks.{IsChunked, end, chunk, keep_alives}
use py2neo.Prelude.{
  zero, suc, refl, ℕ, ◌≡◌, List, ◌++◌, ◌∷◌, ◌≢◌, [], ap, arith, ◌<◌, ◌==◌, ◌∙◌, ◌&&◌, false,
  take-append, length_pos, drop-append, ◌+◌, length, length-append, take, drop, ◌⊎◌, inl, sym,
  append-nil, inr, append_assoc,
}

pub with_first {ℓ} : {A B : Type ℓ} (r : A × B) {a : A} → r.0 ≡ a → r ≡ (a, r.1)
with_first r e = λ i. (e i, r.1)

-- The wire after a read.
abbrev pub after : ℕ → Wire → Wire
after n w = (Wiring.read n w).1

-- A read inside the stream, as an equation.
pub read_eq :
    (n : ℕ) (w : Wire) (bytes rest : List ℕ)
    → IsCounted w
    → stream w ≡ bytes ++ rest
    → n ≡ length bytes
    → (Wiring.read n w ≡ (Wiring.ok bytes, after n w))
      × (stream (after n w) ≡ rest)
      × IsCounted (after n w)
read_eq n w bytes rest c s h =
    let r = read-Reads n w c (omega (arith, ap length s, length-append bytes rest)) in
    (
      with_first (Wiring.read n w)
          (r.result ∙ ap Wiring.ok (ap (take n) s ∙ take-append bytes rest n h)),
      r.rest ∙ ap (drop n) s ∙ drop-append bytes rest n h,
      r.counted,
    )

module _ (fuel : ℕ) (chunks : List (List ℕ)) (w : Wire) (counted : IsCounted w) where
  step_zero :
      (rest : List ℕ)
      → stream w ≡ 0 ∷ 0 ∷ rest
      → (v : Wire) × (collect (suc fuel) chunks w ≡ at_zero_chunk (collect fuel) chunks v)
        × (stream v ≡ rest)
        × IsCounted v
  unfolding collect
  step_zero rest s =
      let (e, s', c') = read_eq 2 w (0 ∷ 0 ∷ []) rest counted s refl in
      (after 2 w, ap (at_header (collect fuel) chunks) e, s', c')

  step_chunk :
      (bytes rest : List ℕ)
      → bytes ≢ []
      → length bytes < 65536
      → stream w ≡ length bytes / 256 ∷ length bytes % 256 ∷ (bytes ++ rest)
      → (v : Wire) × (collect (suc fuel) chunks w ≡ collect fuel (chunks ++ bytes ∷ []) v)
        × (stream v ≡ rest)
        × IsCounted v
  unfolding collect
  step_chunk bytes rest ne small s =
      let n = length bytes in
      let (e, s', c') = read_eq 2 w (n / 256 ∷ n % 256 ∷ []) (bytes ++ rest) counted s refl in
      let (e', s'', c'') =
        read_eq (n / 256 * 256 + n % 256) (after 2 w) bytes rest c' s' (omega arith) in
      (
        after _ (after 2 w),
        ap (at_header (collect fuel) chunks) e
            ∙ rw (nonzero) (ap (at_chunk (collect fuel) chunks) e'),
        s'',
        c'',
      )
    where
      nonzero : (length bytes / 256 == length bytes % 256 && length bytes % 256 == 0) ≡ false
      nonzero = ground (arith, length_pos bytes ne)

-- The loop has read a message: the chunks that it returns join to `payload`.
record Collected (payload rest : List ℕ) (r : Message (List (List ℕ)) × Wire) : Type 0 where
  parts : List (List ℕ)
  left : Wire
  result : r ≡ (ok parts, left)
  joined : flatten parts ≡ payload
  remaining : stream left ≡ rest
  counted : IsCounted left

pub flatten-concat :
    (chunks : List (List ℕ)) (c : List ℕ) → flatten (chunks ++ c ∷ []) ≡ flatten chunks ++ c
unfolding flatten
flatten-concat [] c = append-nil c
flatten-concat (x ∷ xs) c = ap (◌++◌ x) (flatten-concat xs c) ∙ sym (append_assoc x (flatten xs) c)

concat-ne : (chunks : List (List ℕ)) (c : List ℕ) → chunks ++ c ∷ [] ≢ []
concat-ne [] c e = cc
concat-ne (x ∷ xs) c e = cc

at_end :
    (again : Collect) (chunks : List (List ℕ)) (w : Wire)
    → chunks ≢ []
    → at_zero_chunk again chunks w ≡ (ok chunks, w)
at_end again [] w h = absurd (h refl)
at_end again (c ∷ cs) w h = refl

collect-Collected :
    {payload encoded : List ℕ} (rest : List ℕ) (fuel : ℕ) (chunks : List (List ℕ)) (w : Wire)
    → IsChunked payload encoded
    → (chunks ≢ []) ⊎ (payload ≢ [])
    → IsCounted w
    → stream w ≡ encoded ++ rest
    → length encoded < fuel
    → Collected (flatten chunks ++ payload) rest (collect fuel chunks w)
collect-Collected rest zero chunks w e ne c s h = absurd (omega arith)
collect-Collected rest (suc fuel) chunks w (end p e) ne c s h = elim ne [
  | inl some_chunks ↦
      let (v, eq, s', c') = step_zero fuel chunks w c rest (s ∙ ap (λ x. x ++ rest) e) in
      record {
        parts = chunks;
        left = v;
        result = eq ∙ at_end (collect fuel) chunks v some_chunks;
        joined = rw p (sym (append-nil (flatten chunks)));
        remaining = s';
        counted = c';
      }
  | inr some_payload ↦ absurd (some_payload p)
]
collect-Collected rest (suc fuel) chunks w (chunk bytes payload' encoded' n small p e more) ne c s
      h =
    let (v, eq, s', c') = step_chunk fuel chunks w c bytes (encoded' ++ rest) n small (
      s
      ∙ ap (λ x. x ++ rest) e
      ∙ ap (λ x. length bytes / 256 ∷ length bytes % 256 ∷ x) (append_assoc bytes encoded' rest)) in
    let ih =
      collect-Collected rest fuel (chunks ++ bytes ∷ []) v more (inl (concat-ne chunks bytes)) c' s'
        (omega (arith, h, ap length e, length-append bytes encoded')) in
    record {
      parts = ih.parts;
      left = ih.left;
      result = eq ∙ ih.result;
      joined =
          ih.joined
          ∙ ap (λ x. x ++ payload') (flatten-concat chunks bytes)
          ∙ append_assoc (flatten chunks) bytes payload'
          ∙ ap (◌++◌ (flatten chunks)) (sym p);
      remaining = ih.remaining;
      counted = ih.counted;
    }

-- Null messages before the message are skipped.
collect-keep_alives :
    {payload encoded : List ℕ} (n : ℕ) (rest : List ℕ) (fuel : ℕ) (w : Wire)
    → IsChunked payload encoded
    → payload ≢ []
    → IsCounted w
    → stream w ≡ keep_alives n (encoded ++ rest)
    → length (stream w) < fuel
    → Collected payload rest (collect fuel [] w)
unfolding flatten
collect-keep_alives {encoded = encoded} zero rest fuel w e ne c s h =
    collect-Collected rest fuel [] w e (inr ne) c s
      (omega (arith, ap length s, length-append encoded rest))
collect-keep_alives (suc n) rest zero w e ne c s h = absurd (omega arith)
collect-keep_alives {encoded = encoded} (suc n) rest (suc fuel) w e ne c s h =
    let (v, eq, s', c') = step_zero fuel [] w c (keep_alives n (encoded ++ rest)) s in
    rw eq
      (collect-keep_alives n rest fuel v e ne c' s' (omega (arith, h, ap length s, ap length s')))

module _ {V : Type 0} (ps : PackStream V) where
  -- Wherever a chunked encoding of a message stands next in the stream, behind any number of null
  -- messages, `read_message` takes exactly its bytes and gives what the message decodes to.
  pub read_message-IsChunked :
      {payload encoded : List ℕ} (n : ℕ) (rest : List ℕ) (w : Wire)
      → IsChunked payload encoded
      → payload ≢ []
      → IsCounted w
      → stream w ≡ keep_alives n (encoded ++ rest)
      → ((read_message ps w).0 ≡ decode ps payload)
        × (stream (read_message ps w).1 ≡ rest)
        × IsCounted (read_message ps w).1
  unfolding read_message
  read_message-IsChunked n rest w e ne c s =
      let r = collect-keep_alives n rest (suc (length (stream w))) w e ne c s (omega arith) in
      rw (r.result) (ap (decode ps) r.joined, r.remaining, r.counted)
