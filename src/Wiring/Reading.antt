-- ===== src/Wiring/Reading.antt =====
-- `Wire.read`: the bytes that come out are the bytes that came in, in order.
use py2neo.Prelude.{
  true, lt→ltb, ◌⊎◌, ◌<◌, ℕ, ◌≤◌, ◌≡◌, refl, sym, ap, Bool, List, [], ◌∷◌, ◌++◌, append-nil,
  append_assoc, arith, ltb, le→ltb, ltb→le, Bool-cases, inl, inr, length, length-append,
  take-append_le, drop-append_le, take, drop, length-drop,
}
use py2neo.Wiring.{
  err, broken_wire, blocked, mark_broken, read, Recv, received, recv_error, Wire, Result, ok,
  accept, fill, consume, set_inbound,
}

-- What `recv` will still return before it first fails or reports the end.
abbrev pub pending : List Recv → List ℕ
pending [] = []
pending (received [] ∷ es) = []
pending (received (b ∷ bs) ∷ es) = (b ∷ bs) ++ pending es
pending (recv_error ∷ es) = []

-- All that this wire can still hand out.
abbrev pub stream : Wire → List ℕ
stream w = w.input ++ pending w.inbound

-- The two records of the buffer's length agree.
abbrev pub IsCounted : Wire → Type 0
IsCounted w = w.input_len ≡ length w.input

-- What reading leaves alone.
abbrev pub Frame : Type 0
Frame = Bool × Bool × List ℕ

abbrev pub frame : Wire → Frame
frame w = (w.broken, w.closed, w.output)

-- A read that succeeds: the first `n` bytes of the stream `s`, the rest kept for later.
pub record Reads (n : ℕ) (s : List ℕ) (f : Frame) (r : Result (List ℕ) × Wire) : Type 0 where
  pub result : r.0 ≡ ok (take n s)
  pub rest : stream r.1 ≡ drop n s
  pub counted : IsCounted r.1
  pub same_frame : frame r.1 ≡ f

accept-IsCounted : (bs : List ℕ) (w : Wire) → IsCounted w → IsCounted (accept bs w)
unfolding accept
accept-IsCounted bs w h = omega (arith, h, length-append w.input bs)

-- The buffer already holds enough.
consume-Reads :
    (n : ℕ) (w : Wire)
    → IsCounted w
    → n ≤ length w.input
    → Reads n (stream w) (frame w) (consume n (ok tt, w))
unfolding consume
consume-Reads n w c h = record {
  result = ap ok (sym (take-append_le n w.input (pending w.inbound) h));
  rest = sym (drop-append_le n w.input (pending w.inbound) h);
  counted = omega (arith, c, length-drop n w.input);
  same_frame = refl;
}

-- Before the loop a failing socket holds only what is buffered.
buffered : (n : ℕ) (w : Wire) → IsCounted w → n ≤ length (w.input ++ []) → n ≤ w.input_len
buffered n w c h = let e = append-nil w.input in omega (arith, c, ap length e)

fill-Reads :
    (n : ℕ) (es : List Recv) (w : Wire)
    → IsCounted w
    → n ≤ length (w.input ++ pending es)
    → Reads n (w.input ++ pending es) (frame w) (consume n (fill n es w))
unfolding fill consume
fill-Reads n [] w c h =
    let k = buffered n w c h in
    rw (le→ltb w.input_len n k) (consume-Reads n (set_inbound [] w) c (omega arith))
fill-Reads n (received [] ∷ es) w c h =
    let k = buffered n w c h in
    rw (le→ltb w.input_len n k) (consume-Reads n (set_inbound (received [] ∷ es) w) c (omega arith))
fill-Reads n (received (b ∷ bs) ∷ es) w c h = elim (Bool-cases (ltb w.input_len n)) [
  | inl more ↦ rw more (
      let a = append_assoc w.input (b ∷ bs) (pending es) in
      let ih =
        fill-Reads n es (accept (b ∷ bs) w) (accept-IsCounted (b ∷ bs) w c)
          (unfold accept in rw a h) in
      unfold accept in rw a at ih)
  | inr done ↦ rw done (
      consume-Reads n (set_inbound (received (b ∷ bs) ∷ es) w) c
        (omega (arith, ltb→le w.input_len n done)))
]
fill-Reads n (recv_error ∷ es) w c h =
    let k = buffered n w c h in
    rw (le→ltb w.input_len n k) (consume-Reads n (set_inbound (recv_error ∷ es) w) c (omega arith))

-- While the stream holds `n` more bytes, `read(n)` returns exactly the first `n` of them, keeps the
-- others in order for later reads, and touches neither the flags nor the output buffer.
pub read-Reads :
    (n : ℕ) (w : Wire)
    → IsCounted w
    → n ≤ length (stream w)
    → Reads n (stream w) (frame w) (read n w)
unfolding read
read-Reads n w c h = fill-Reads n w.inbound w c h

-- A read that the stream cannot satisfy: every byte of it is buffered and none is handed out.
pub record ReadFails (s : List ℕ) (r : Result (List ℕ) × Wire) : Type 0 where
  pub outcome : ((r.0 ≡ err broken_wire) × (r.1.broken ≡ true)) ⊎ (r.0 ≡ err blocked)
  pub kept : r.1.input ≡ s
  pub counted : IsCounted r.1

-- The tests of `fill` on a buffer that is too short.
short : (n : ℕ) (w : Wire) → IsCounted w → length (w.input ++ []) < n → ltb w.input_len n ≡ true
short n w c h = let e = append-nil w.input in lt→ltb _ _ (omega (arith, c, ap length e))

longer :
    (n : ℕ) (w : Wire) (xs : List ℕ)
    → IsCounted w
    → length (w.input ++ xs) < n
    → ltb w.input_len n ≡ true
longer n w xs c h = lt→ltb _ _ (omega (arith, c, length-append w.input xs))

fill-ReadFails :
    (n : ℕ) (es : List Recv) (w : Wire)
    → IsCounted w
    → length (w.input ++ pending es) < n
    → ReadFails (w.input ++ pending es) (consume n (fill n es w))
unfolding fill consume mark_broken
fill-ReadFails n [] w c h =
    rw (short n w c h) (record { outcome = inr refl; kept = sym (append-nil w.input); counted = c })
fill-ReadFails n (received [] ∷ es) w c h =
    rw (short n w c h)
      (record { outcome = inl (refl, refl); kept = sym (append-nil w.input); counted = c })
fill-ReadFails n (received (b ∷ bs) ∷ es) w c h =
    let a = append_assoc w.input (b ∷ bs) (pending es) in
    let ih =
      fill-ReadFails n es (accept (b ∷ bs) w) (accept-IsCounted (b ∷ bs) w c)
        (unfold accept in rw a h) in
    rw (longer n w ((b ∷ bs) ++ pending es) c h) (unfold accept in rw a at ih)
fill-ReadFails n (recv_error ∷ es) w c h =
    rw (short n w c h)
      (record { outcome = inl (refl, refl); kept = sym (append-nil w.input); counted = c })

-- If the socket fails, ends or falls silent before `n` bytes have come, `read(n)` hands out nothing:
-- it raises and the wire is marked broken, or it never returns. What did come is still buffered.
pub read-ReadFails :
    (n : ℕ) (w : Wire) → IsCounted w → length (stream w) < n → ReadFails (stream w) (read n w)
unfolding read
read-ReadFails n w c h = fill-ReadFails n w.inbound w c h
