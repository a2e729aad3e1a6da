-- ===== src/Bolt/Message/Writing.antt =====
-- `BoltMessageWriter.write_message` writes the chunked encoding of its message.
use py2neo.Prelude.{
  ◌≢◌, ℕ, zero, suc, ◌<◌, ◌≡◌, refl, sym, ◌∙◌, some, List, [], ◌∷◌, ◌++◌, length, take, drop,
  take-append-drop, append_assoc, arith, length-take, append-nil, ap, ◌≤◌, ◌+◌, drop-drop,
  length-take_of_le, length-append, length-drop, take-append, Bool, ◌||◌, subst, false, ◌⊎◌,
  Bool-cases, inl, inr, length_pos,
}
use Prim.Native.Nat.{◌/◌, ◌%◌}
use mathlib.Core.Bool.{false≢true, Bool, false}
use py2neo.Wiring.{Wire}
use py2neo.Bolt.Message.{
  Buffer, Written, Writer, write_chunk, after_chunk, ok, PackStream, buffer_write, write_chunks,
  true, pack_fields, write_message, truncate, leb, seek, write_packed, err, value_error, pack_error,
}
use py2neo.Bolt.Message.Chunks.{IsChunked, end, chunk}

-- The writer has put an encoding of `payload` behind what the wire held.
pub record Writes (payload output : List ℕ) (r : Written × Writer) : Type 0 where
  pub encoded : List ℕ
  pub is_chunked : IsChunked payload encoded
  pub result : r.0 ≡ ok
  pub sent : r.1.wire.output ≡ output ++ encoded

drop-length-take : (n : ℕ) (xs : List ℕ) → drop (length (take n xs)) xs ≡ drop n xs
drop-length-take zero xs = refl
drop-length-take (suc n) [] = refl
drop-length-take (suc n) (x ∷ xs) = drop-length-take n xs

-- A chunk that two bytes can measure goes out behind its size, and `struct_pack` does not raise.
write_chunk_lem :
    (c : List ℕ) (w : Wire)
    → length c < 65536
    → write_chunk c w
      ≡ (some (length c), record w { output = w.output ++ (length c / 256 ∷ length c % 256 ∷ c) })
unfolding write_chunk
write_chunk_lem [] w h = refl
write_chunk_lem (x ∷ xs) w h =
    ground
      (arith, append_assoc w.output (length (x ∷ xs) / 256 ∷ length (x ∷ xs) % 256 ∷ []) (x ∷ xs))

after_chunk-Writes :
    (k : ℕ) (left : List ℕ) (b : Buffer) (w : Wire) (rest : Writer → Written × Writer)
    → 0 < k
    → k < 65536
    → ((v : Wire)
        → left ≢ []
        → Writes (drop k left) v.output (rest (record { wire = v; buffer = b })))
    → Writes left w.output (after_chunk rest b (write_chunk (take k left) w))
after_chunk-Writes zero left b w rest h0 h ih = absurd (omega arith)
after_chunk-Writes (suc k) [] b w rest h0 h ih =
    rw (write_chunk_lem [] w (omega arith))
      (record { encoded = 0 ∷ 0 ∷ []; is_chunked = end refl refl; result = refl; sent = refl })
after_chunk-Writes (suc k) (x ∷ xs) b w rest h0 h ih =
    let fits : length (take (suc k) (x ∷ xs)) < 65536 =
      omega (arith, length-take (suc k) (x ∷ xs)) in
    rw (write_chunk_lem (take (suc k) (x ∷ xs)) w fits) (
      let v = ih _ (λ e. cc) in
      record {
        encoded =
            length (take (suc k) (x ∷ xs)) / 256
            ∷ length (take (suc k) (x ∷ xs)) % 256
            ∷ (take (suc k) (x ∷ xs) ++ v.encoded);
        is_chunked =
            chunk (take (suc k) (x ∷ xs)) (drop (suc k) (x ∷ xs)) v.encoded (λ e. cc) fits
              (sym (take-append-drop (suc k) (x ∷ xs))) refl v.is_chunked;
        result = v.result;
        sent = v.sent ∙ append_assoc w.output _ v.encoded;
      })

write_chunks-Writes :
    (fuel : ℕ) (w : Writer)
    → length (drop w.buffer.position w.buffer.content) < fuel
    → Writes (drop w.buffer.position w.buffer.content) w.wire.output (write_chunks fuel w)
unfolding write_chunks
write_chunks-Writes zero w h = absurd (omega arith)
write_chunks-Writes (suc fuel) w h =
    after_chunk-Writes 0x7FFF left next w.wire (write_chunks fuel) (omega arith) (omega arith)
      λ v ne. rw (← moved) (
        write_chunks-Writes fuel (record { wire = v; buffer = next })
          (rw moved (omega (arith, h, length-drop 0x7FFF left, length_pos left ne))))
  where
    left : List ℕ
    left = drop w.buffer.position w.buffer.content

    next : Buffer
    next = record w.buffer { position = w.buffer.position + length (take 0x7FFF left) }

    moved : drop next.position next.content ≡ drop 0x7FFF left
    moved =
        sym (drop-drop w.buffer.position (length (take 0x7FFF left)) _ w.buffer.content refl)
        ∙ drop-length-take 0x7FFF left

-- Up to its position a buffer holds what was written; what stands behind is left over.
abbrev pub written : Buffer → List ℕ
written b = take b.position b.content

abbrev IsWithin : Buffer → Type 0
IsWithin b = b.position ≤ length b.content

buffer_write-written :
    (bs : List ℕ) (b : Buffer)
    → IsWithin b
    → IsWithin (buffer_write bs b) × (written (buffer_write bs b) ≡ written b ++ bs)
unfolding buffer_write
buffer_write-written bs b h = (
  rw (length-append kept (bs ++ left), length-append bs left) (omega (arith, kept_length)),
  ap (take end_position) (sym (append_assoc kept bs left))
      ∙ take-append (kept ++ bs) left end_position
          (omega (arith, kept_length, length-append kept bs)),
)
  where
    end_position : ℕ
    end_position = b.position + length bs

    kept : List ℕ
    kept = take b.position b.content

    left : List ℕ
    left = drop end_position b.content

    kept_length : length kept ≡ b.position
    kept_length = length-take_of_le b.position b.content h

module _ {V : Type 0} (ps : PackStream V) where
  -- The bytes of the fields, one after the other.
  abbrev pub packed : List V → List ℕ
  packed [] = []
  packed (v ∷ vs) = (ps.pack v).0 ++ packed vs

  -- No field makes the packer raise.
  abbrev pub Packable : List V → Type 0
  Packable [] = Unit
  Packable (v ∷ vs) = ((ps.pack v).1 ≡ true) × Packable vs

  pack_fields-written :
      (vs : List V) (b : Buffer)
      → IsWithin b
      → Packable vs
      → ((pack_fields ps vs b).0 ≡ true)
        × IsWithin (pack_fields ps vs b).1
        × (written (pack_fields ps vs b).1 ≡ written b ++ packed vs)
  unfolding pack_fields
  pack_fields-written [] b h p = (refl, h, sym (append-nil _))
  pack_fields-written (v ∷ vs) b h p =
      let (k, e) = buffer_write-written (ps.pack v).0 b h in
      let ih = pack_fields-written vs (buffer_write (ps.pack v).0 b) k p.1 in
      rw (p.0) (
        ih.0,
        ih.1,
        ih.2 ∙ ap (λ x. x ++ packed vs) e ∙ append_assoc (written b) (ps.pack v).0 (packed vs),
      )

  -- The bytes of a message: the marker with the number of fields, the tag, the fields.
  abbrev pub payload : ℕ → List V → List ℕ
  payload tag fields = (0xB0 + length fields) ∷ tag ∷ packed fields

  write_packed-Writes :
      (w : Wire) (r : Bool × Buffer)
      → r.0 ≡ true
      → Writes (written r.1) w.output (write_packed ps w r)
  unfolding truncate
  write_packed-Writes w (false, b) e = absurd (false≢true e)
  write_packed-Writes w (true, b) e = write_chunks-Writes (suc (length (written b))) _ (omega arith)

  fits : (n tag : ℕ) → n < 256 → tag < 256 → (leb 256 n || leb 256 tag) ≡ false
  fits n tag hn ht = ground arith

  -- A message whose tag and number of fields fit in a byte, and whose fields can all be packed, is
  -- written: `write_message` does not raise, and the wire's output buffer grows by a chunked encoding of
  -- exactly that message, whatever an earlier message left in the writer's own buffer.
  pub write_message-Writes :
      (tag : ℕ) (fields : List V) (w : Writer)
      → tag < 256
      → 0xB0 + length fields < 256
      → Packable fields
      → Writes (payload tag fields) w.wire.output (write_message ps tag fields w)
  unfolding write_message truncate buffer_write
  write_message-Writes tag fields w ht hn p = rw (fits (0xB0 + length fields) tag hn ht) (
      let (done, _, e) = pack_fields-written fields start (omega arith) p in
      subst (λ m. Writes m w.wire.output (write_packed ps w.wire (pack_fields ps fields start))) e
        (write_packed-Writes w.wire (pack_fields ps fields start) done))
    where
      start : Buffer
      start = buffer_write ((0xB0 + length fields) ∷ tag ∷ []) (seek 0 w.buffer)

  packed_outcome :
      (w : Wire) (r : Bool × Buffer)
      → (write_packed ps w r).0 ≢ ok
      → ((write_packed ps w r).1.wire ≡ w) × ((write_packed ps w r).0 ≡ err pack_error)
  packed_outcome w (false, b) h = (refl, refl)
  packed_outcome w (true, b) h = absurd (h (write_packed-Writes w (true, b) refl).result)

  -- A message that is not written leaves the wire as it was: nothing of it is ever sent. This happens
  -- only where the tag or the number of fields does not fit in a byte, or the packer raises; the sizes
  -- of the chunks always fit.
  write_message-fails :
      (tag : ℕ) (fields : List V) (w : Writer)
      → (write_message ps tag fields w).0 ≢ ok
      → ((write_message ps tag fields w).1.wire ≡ w.wire)
        × (((write_message ps tag fields w).0 ≡ err value_error)
            ⊎ ((write_message ps tag fields w).0 ≡ err pack_error))
  unfolding write_message
  write_message-fails tag fields w =
      elim (Bool-cases (leb 256 (0xB0 + length fields) || leb 256 tag)) [
        | inl big ↦ rw big (λ h. (refl, inl refl))
        | inr small ↦ rw small (λ h.
            let (e, f) =
              packed_outcome w.wire
                (pack_fields ps fields
                  (buffer_write ((0xB0 + length fields) ∷ tag ∷ []) (seek 0 w.buffer)))
                h in
            (e, inr f))
      ]
