-- ===== src/Wiring/Tests.antt =====
-- Runs of the wire, and the theorems about it at concrete sockets.
use py2neo.Prelude.{ℕ, Bool, ◌≡◌, refl, [], ◌∷◌, false, true, arith}
use py2neo.Wiring.{Socket, Wire, wire_on, received, recv_error, accepted, ok, read, send}
use py2neo.Wiring.Reading.{read-Reads, Reads, frame}
use py2neo.Wiring.Sending.{send-eq-ok}

abbrev socket_two_parts : Socket
socket_two_parts = record {
  inbound = received (1 ∷ 2 ∷ []) ∷ received (3 ∷ 4 ∷ 5 ∷ []) ∷ recv_error ∷ [];
  outbound = accepted 2 ∷ accepted 1 ∷ [];
  shutdown_fails = false;
  close_fails = false;
  delivered = [];
}

abbrev wire_two_parts : Wire
wire_two_parts = wire_on socket_two_parts true

abbrev wire_to_send : Wire
wire_to_send = record wire_two_parts { output = 7 ∷ 8 ∷ 9 ∷ [] }

read_across_parts : (read 3 wire_two_parts).0 ≡ ok (1 ∷ 2 ∷ 3 ∷ [])
unfolding read
read_across_parts = refl

-- The callback of a broken wire still sees `broken` unset.
read_past_error : (read 6 wire_two_parts).1.notices ≡ false ∷ []
unfolding read
read_past_error = refl

send_in_two_parts : (send false wire_to_send).0 ≡ ok 3
unfolding send
send_in_two_parts = refl

read-Reads_example : Reads 3 (1 ∷ 2 ∷ 3 ∷ 4 ∷ 5 ∷ []) (frame wire_two_parts) (read 3 wire_two_parts)
read-Reads_example = read-Reads 3 wire_two_parts refl (omega arith)

send-eq-ok_example :
    ◌≡◌ {A = ℕ} 3 3
    × ◌≡◌ {A = Bool} false false
    × ((send false wire_to_send).1.output ≡ [])
    × ((send false wire_to_send).1.delivered ≡ 7 ∷ 8 ∷ 9 ∷ [])
    × ((send false wire_to_send).1.bytes_sent ≡ 3)
send-eq-ok_example = send-eq-ok false wire_to_send 3 (omega arith) send_in_two_parts
