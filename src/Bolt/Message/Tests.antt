-- ===== src/Bolt/Message/Tests.antt =====
-- Runs of the reader and the writer with a packer of single bytes, and the theorems at concrete input.
use py2neo.Prelude.{ℕ, refl, false, [], ◌∷◌, some, ◌≡◌, drop, ltb, arith, List, length, ◌≢◌}
use mathlib.Core.List.{flatten}
use py2neo.Wiring
use py2neo.Wiring.{Wire, wire_on, received, recv_error}
use py2neo.Wiring.Reading.{stream, IsCounted}
use py2neo.Bolt.Message.{PackStream, Writer, ok, write_message, read_message, decode}
use py2neo.Bolt.Message.Chunks.{IsChunked, end, chunk}
use py2neo.Bolt.Message.Writing.{Writes, write_message-Writes}
use py2neo.Bolt.Message.Reading.{read_message-IsChunked}
use py2neo.Bolt.Message.Safety.{Meant, read_message-Meant}
use py2neo.Bolt.Message.RoundTrip.{read_message-write_message}

-- A value is a small number, and is packed as one byte.
abbrev tiny : PackStream ℕ
tiny = record { pack = λ v. (v ∷ [], ltb v 128); unpack = λ message. some (drop 2 message) }

abbrev network : List ℕ → Wire
network bytes =
    wire_on
      (record {
        inbound = received bytes ∷ recv_error ∷ [];
        outbound = [];
        shutdown_fails = false;
        close_fails = false;
        delivered = [];
      })
      false

-- The buffer still holds a longer message.
abbrev writer : Writer
writer = record {
  wire = network [];
  buffer = record { content = 1 ∷ 2 ∷ 3 ∷ 4 ∷ 5 ∷ 6 ∷ 7 ∷ []; position = 3 };
}

write_two_fields :
    (write_message tiny 0x10 (7 ∷ 8 ∷ []) writer).1.wire.output
    ≡ 0 ∷ 4 ∷ 0xB2 ∷ 0x10 ∷ 7 ∷ 8 ∷ 0 ∷ 0 ∷ []
unfolding write_message
write_two_fields = refl

abbrev arriving : Wire
arriving = network (0 ∷ 0 ∷ 0 ∷ 4 ∷ 0xB2 ∷ 0x10 ∷ 7 ∷ 8 ∷ 0 ∷ 0 ∷ 9 ∷ [])

read_two_fields : (read_message tiny arriving).0 ≡ ok (0x10, 7 ∷ 8 ∷ [])
unfolding read_message Wiring.read flatten
read_two_fields = refl

write_message-Writes_example :
    Writes (0xB1 ∷ 0x10 ∷ 7 ∷ []) [] (write_message tiny 0x10 (7 ∷ []) writer)
write_message-Writes_example =
    write_message-Writes tiny 0x10 (7 ∷ []) writer (omega arith) (omega arith) (refl, tt)

bad_tag : (write_message tiny 300 [] writer).0 ≢ ok
unfolding write_message
bad_tag e = cc

two_chunks : IsChunked (0xB1 ∷ 0x10 ∷ 7 ∷ []) (0 ∷ 2 ∷ 0xB1 ∷ 0x10 ∷ 0 ∷ 1 ∷ 7 ∷ 0 ∷ 0 ∷ [])
two_chunks =
    chunk (0xB1 ∷ 0x10 ∷ []) (7 ∷ []) _ (λ e. cc) (omega arith) refl refl
      (chunk (7 ∷ []) [] _ (λ e. cc) (omega arith) refl refl (end refl refl))

abbrev arriving_split : Wire
arriving_split = network (0 ∷ 2 ∷ 0xB1 ∷ 0x10 ∷ 0 ∷ 1 ∷ 7 ∷ 0 ∷ 0 ∷ 5 ∷ [])

read_message-IsChunked_example :
    ((read_message tiny arriving_split).0 ≡ decode tiny (0xB1 ∷ 0x10 ∷ 7 ∷ []))
    × (stream (read_message tiny arriving_split).1 ≡ 5 ∷ [])
    × IsCounted (read_message tiny arriving_split).1
read_message-IsChunked_example =
    read_message-IsChunked tiny 0 (5 ∷ []) arriving_split two_chunks (λ e. cc) refl refl

read_message-write_message_example :
    ((read_message tiny arriving).0 ≡ ok (0x10, 7 ∷ 8 ∷ []))
    × (stream (read_message tiny arriving).1 ≡ 9 ∷ [])
read_message-write_message_example =
    read_message-write_message tiny 0x10 (7 ∷ 8 ∷ []) writer arriving 1 (9 ∷ []) (omega arith)
      (omega arith) (refl, (refl, tt)) refl refl refl (unfold write_message in refl)

read_message-Meant_example : Meant tiny (read_message tiny (network (0 ∷ 9 ∷ 1 ∷ []))).0
read_message-Meant_example = read_message-Meant tiny (network (0 ∷ 9 ∷ 1 ∷ [])) refl

abbrev buffered : List ℕ → Wire
buffered bytes = record (network []) { input = bytes; input_len = length bytes }
