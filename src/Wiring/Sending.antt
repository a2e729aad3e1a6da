-- ===== src/Wiring/Sending.antt =====
-- `Wire.send`: what the network takes is what was written, in order.
use py2neo.Prelude.{
  ℕ, ◌+◌, ◌-◌, ◌≤◌, ◌≡◌, refl, ap, ◌∙◌, Bool, List, [], ◌∷◌, ◌++◌, arith, take, drop,
  take-append-drop, append_assoc, true, length, length-drop, Bool-cases, false, inl, sym, inr,
  append-nil,
}
use py2neo.Wiring.{
  Sent, accepted, send_error, Wire, Result, flush, finish, send, transmit, mark_broken, ok,
  is_empty,
}

-- Bytes that were written and are delivered or still wait.
abbrev pub written : Wire → List ℕ
written w = w.delivered ++ w.output

-- The documented behaviour of `socket.send`: it accepts no more than it was given.
abbrev pub IsHonest : ℕ → List Sent → Type 0
IsHonest n [] = Unit
IsHonest n (accepted k ∷ es) = (k ≤ n) × IsHonest (n - k) es
IsHonest n (send_error ∷ es) = Unit

transmit-written : (n : ℕ) (es : List Sent) (w : Wire) → written (transmit n es w) ≡ written w
unfolding transmit
transmit-written n es w =
    append_assoc w.delivered (take n w.output) (drop n w.output)
    ∙ ap (◌++◌ w.delivered) (take-append-drop n w.output)

flush-written : (es : List Sent) (sent : ℕ) (w : Wire) → written (flush sent es w).1 ≡ written w
unfolding flush mark_broken
flush-written [] sent w = refl
flush-written (accepted n ∷ es) sent w =
    ground (arith, flush-written es (sent + n) (transmit n es w), transmit-written n es w)
flush-written (send_error ∷ es) sent w = ground arith

-- Whatever the network does and however `send` ends, the bytes delivered followed by the bytes still
-- in the output buffer are those before the call.
send-written : (final : Bool) (w : Wire) → written (send final w).1 ≡ written w
unfolding send finish mark_broken
send-written final w = ground (arith, flush-written w.outbound 0 w)

is_empty-nil : (xs : List ℕ) → is_empty xs ≡ true → xs ≡ []
is_empty-nil [] h = refl
is_empty-nil (x ∷ xs) h = cc

-- A `send` that returns `k`: the buffer is empty, and `k` bytes were counted.
pub record Flushes (w : Wire) (k : ℕ) (v : Wire) : Type 0 where
  pub emptied : v.output ≡ []
  pub counts : v.bytes_sent ≡ w.bytes_sent + k

abbrev Sends : Wire → ℕ → ℕ → Result ℕ × Wire → Type 0
Sends w sent total r =
    (k : ℕ)
    → r.0 ≡ ok k
    → (r.1.output ≡ []) × (r.1.bytes_sent + sent ≡ w.bytes_sent + k) × (k ≡ total)

flush-Sends :
    (es : List Sent) (sent total : ℕ) (w : Wire)
    → IsHonest (length w.output) es
    → total ≡ sent + length w.output
    → Sends w sent total (flush sent es w)
unfolding flush mark_broken
flush-Sends [] sent total w hon t = λ k h. ground (arith, is_empty-nil w.output)
flush-Sends (accepted n ∷ es) sent total w hon t = elim (Bool-cases (is_empty w.output)) [
  | inl done ↦
      rw done (λ k h.
        let e = is_empty-nil w.output done in (e, ground arith, ground (arith, ap length e)))
  | inr more ↦ rw more (λ k h.
      let ih =
        flush-Sends es (sent + n) total (transmit n es w)
          (unfold transmit in rw (length-drop n w.output) hon.1)
          (unfold transmit in omega (arith, t, hon.0, length-drop n w.output)) k h in
      unfold transmit in (ih.0, omega (arith, ih.1), ih.2))
]
flush-Sends (send_error ∷ es) sent total w hon t = λ k h. ground (arith, is_empty-nil w.output)

-- When `send` returns `k`, the wire was open, `k` is the number of bytes that were waiting, all of them
-- have gone to the network behind what went before, and the count of bytes sent has grown by `k`. This
-- holds of a socket that never accepts more bytes than it is given.
pub send-eq-ok :
    (final : Bool) (w : Wire) (k : ℕ)
    → IsHonest (length w.output) w.outbound
    → (send final w).0 ≡ ok k
    → (k ≡ length w.output)
      × (w.closed ≡ false)
      × ((send final w).1.output ≡ [])
      × ((send final w).1.delivered ≡ w.delivered ++ w.output)
      × ((send final w).1.bytes_sent ≡ w.bytes_sent + k)
send-eq-ok final w k hon h = let p = ends in (p.0, p.1, p.2, all p.2, p.3)
  where
    ends :
        (k ≡ length w.output)
        × (w.closed ≡ false)
        × ((send final w).1.output ≡ [])
        × ((send final w).1.bytes_sent ≡ w.bytes_sent + k)
    ends =
        unfold send finish mark_broken in
        ground (arith, flush-Sends w.outbound 0 (length w.output) w hon (omega arith) k)

    all : (send final w).1.output ≡ [] → (send final w).1.delivered ≡ w.delivered ++ w.output
    all e = sym (append-nil _) ∙ ap (◌++◌ (send final w).1.delivered) (sym e) ∙ send-written final w
