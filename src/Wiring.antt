-- ===== src/Wiring.antt =====
-- wiring.py: `Wire`, the buffered socket wrapper. The socket is the outside world: its answers to
-- the coming calls of `recv` and `send` stand in two lists, and an empty list is a call that never
-- returns. Times, message texts and the TLS layer are left out.
pub mod Reading
pub mod Sending
mod Tests
use py2neo.Prelude.{
  ℕ, ◌+◌, ◌-◌, Bool, true, false, List, [], ◌∷◌, ◌++◌, ◌&&◌, ltb, length, take, drop, if◌then◌else◌,
}

-- What `socket.recv` does: it returns these bytes (none, once the peer has closed), or it raises.
pub data Recv : Type 0 where
  received : List ℕ → Recv
  recv_error : Recv

-- What `socket.send` does: it accepts so many bytes, or it raises.
pub data Sent : Type 0 where
  accepted : ℕ → Sent
  send_error : Sent

pub record Socket : Type 0 where
  pub inbound : List Recv
  pub outbound : List Sent
  pub shutdown_fails : Bool
  pub close_fails : Bool
  -- the bytes that the network has taken from us so far
  pub delivered : List ℕ

pub record Wire : Type 0 where
  pub socket : Socket
  pub open socket use *
  pub bytes_received : ℕ
  pub bytes_sent : ℕ
  pub input : List ℕ
  pub input_len : ℕ
  pub output : List ℕ
  pub has_on_broken : Bool
  -- for each call of `on_broken`, what the flag `broken` was when the callback ran
  pub notices : List Bool
  pub closed : Bool
  pub broken : Bool

-- `blocked` is not an exception: it stands for a call of the socket that never returns.
pub data Fault : Type 0 where
  broken_wire wire_closed blocked : Fault

pub data Result {ℓ} (A : Type ℓ) : Type ℓ where
  ok : A → Result A
  err : Fault → Result A

-- The effects of a method stay when it raises.
abbrev pub Action : Type 0 → Type 0
Action A = Wire → Result A × Wire

-- Wire(s, on_broken)
abbrev pub wire_on : Socket → Bool → Wire
wire_on s has_on_broken = record {
  socket = s;
  bytes_received = 0;
  bytes_sent = 0;
  input = [];
  input_len = 0;
  output = [];
  has_on_broken = has_on_broken;
  notices = [];
  closed = false;
  broken = false;
}

-- The callback runs before the flag is set.
unfoldable pub mark_broken : {A : Type 0} → Action A
mark_broken w = (
  err broken_wire,
  record w { notices = if w.has_on_broken then w.broken ∷ w.notices else w.notices; broken = true },
)

abbrev pub set_inbound : List Recv → Wire → Wire
set_inbound es w = record w { socket = record w.socket { inbound = es } }

-- The `else` branch of `read`: what `recv` returned goes to the end of the buffer.
unfoldable pub accept : List ℕ → Wire → Wire
accept bs w = record w {
  input = w.input ++ bs;
  input_len = w.input_len + length bs;
  bytes_received = w.bytes_received + length bs;
}

-- The loop of `read`, over the answers of `recv`.
unfoldable pub fill : ℕ → List Recv → Action (Unit {0})
unfolding accept mark_broken
fill n [] w = (if ltb w.input_len n then err blocked else ok tt, set_inbound [] w)
fill n (received [] ∷ es) w =
    if ltb w.input_len n
    then mark_broken (set_inbound es w)
    else (ok tt, set_inbound (received [] ∷ es) w)
fill n (received (b ∷ bs) ∷ es) w =
    let rest = fill n es (accept (b ∷ bs) w) in
    if ltb w.input_len n then rest else (ok tt, set_inbound (received (b ∷ bs) ∷ es) w)
fill n (recv_error ∷ es) w =
    if ltb w.input_len n
    then mark_broken (set_inbound es w)
    else (ok tt, set_inbound (recv_error ∷ es) w)

-- The end of `read`: the first `n` bytes leave the buffer.
unfoldable pub consume : ℕ → Result (Unit {0}) × Wire → Result (List ℕ) × Wire
consume n (ok _, w) =
    (ok (take n w.input), record w { input = drop n w.input; input_len = w.input_len - n })
consume n (err e, w) = (err e, w)

unfoldable pub read : ℕ → Action (List ℕ)
unfolding fill consume
read n w = consume n (fill n w.inbound w)

unfoldable pub peek : Wire → List ℕ
peek w = w.input

unfoldable pub write : List ℕ → Wire → Wire
write b w = record w { output = w.output ++ b }

-- One successful `socket.send`.
unfoldable pub transmit : ℕ → List Sent → Wire → Wire
transmit n es w = record w {
  socket = record w.socket { outbound = es; delivered = w.delivered ++ take n w.output };
  bytes_sent = w.bytes_sent + n;
  output = drop n w.output;
}

abbrev pub set_outbound : List Sent → Wire → Wire
set_outbound es w = record w { socket = record w.socket { outbound = es } }

abbrev pub is_empty {ℓ} : {A : Type ℓ} → List A → Bool
is_empty [] = true
is_empty (x ∷ xs) = false

-- The loop of `send`, over the answers of `socket.send`; `sent` counts the bytes.
unfoldable pub flush : ℕ → List Sent → Action ℕ
unfolding transmit mark_broken
flush sent [] w = (if is_empty w.output then ok sent else err blocked, set_outbound [] w)
flush sent (accepted n ∷ es) w =
    let rest = flush (sent + n) es (transmit n es w) in
    if is_empty w.output then (ok sent, set_outbound (accepted n ∷ es) w) else rest
flush sent (send_error ∷ es) w =
    if is_empty w.output
    then (ok sent, set_outbound (send_error ∷ es) w)
    else mark_broken (set_outbound es w)

-- The end of `send`: `shutdown` is asked for after the last bytes, if at all.
unfoldable pub finish : Bool → Result ℕ × Wire → Result ℕ × Wire
unfolding mark_broken
finish final (ok sent, w) = if final && w.shutdown_fails then mark_broken w else (ok sent, w)
finish final (err e, w) = (err e, w)

unfoldable pub send : Bool → Action ℕ
unfolding flush finish
send final w = if w.closed then (err wire_closed, w) else finish final (flush 0 w.outbound w)

unfoldable pub close : Action (Unit {0})
unfolding mark_broken
close w = if w.close_fails then mark_broken w else (ok tt, record w { closed = true })
