-- ===== src/Bolt/Message.antt =====
-- client/bolt.py: `BoltMessageWriter` and `BoltMessageReader`, which carry messages over a `Wire` in
-- chunks. Packing a value and unpacking a message belong to interchange.packstream, a library that
-- is not part of the repository, and are the parameter `PackStream`.
pub mod Chunks
pub mod Writing
pub mod Reading
pub mod Safety
pub mod RoundTrip
pub mod Peeking
mod Tests
use Prim.Native.Nat.{◌*◌, ◌/◌, ◌%◌}
use mathlib.Core.List.{flatten}
use py2neo.Prelude.{
  ℕ, zero, suc, ◌+◌, Bool, true, false, ◌&&◌, ◌||◌, Option, none, some, List, [], ◌∷◌, ◌++◌, ltb,
  leb, ◌==◌, length, take, drop, get_elem?, if◌then◌else◌,
}
use py2neo.Wiring
use py2neo.Wiring.{Wire, Fault, broken_wire, wire_closed, blocked}
use py2neo.Wiring.Reading.{stream}

-- `pack` gives the bytes that `Packer.pack` writes and whether it returned rather than raised.
-- `unpack` is `list(unpack(message, offset=2))`; it has no value where that raises `ValueError`.
pub record PackStream (V : Type 0) : Type 0 where
  pub pack : V → List ℕ × Bool
  pub unpack : List ℕ → Option (List V)

-- io.BytesIO
pub record Buffer : Type 0 where
  pub content : List ℕ
  pub position : ℕ

abbrev pub seek : ℕ → Buffer → Buffer
seek p b = record b { position = p }

-- Writing overwrites what stands at the position.
unfoldable pub buffer_write : List ℕ → Buffer → Buffer
buffer_write bs b = record {
  content = take b.position b.content ++ (bs ++ drop (b.position + length bs) b.content);
  position = b.position + length bs;
}

unfoldable pub truncate : Buffer → Buffer
truncate b = record b { content = take b.position b.content }

unfoldable pub buffer_read : ℕ → Buffer → List ℕ × Buffer
buffer_read n b =
    let bytes = take n (drop b.position b.content) in
    (bytes, record b { position = b.position + length bytes })

pub data WriteFault : Type 0 where
  value_error pack_error struct_error out_of_fuel : WriteFault

pub data Written : Type 0 where
  ok : Written
  err : WriteFault → Written

pub record Writer : Type 0 where
  pub wire : Wire
  pub buffer : Buffer

-- struct_pack(">H", size), which raises on what two bytes cannot hold
unfoldable pub pack_size : ℕ → Option (List ℕ)
pack_size size = if ltb size 65536 then some (size / 256 ∷ size % 256 ∷ []) else none

-- The size that `_write_chunk` returns, or that `struct_pack` raised.
unfoldable pub write_chunk : List ℕ → Wire → Option ℕ × Wire
unfolding pack_size Wiring.write
write_chunk chunk w = elim (pack_size (length chunk)) [
  | none ↦ (none, w)
  | some size ↦
      let w' = Wiring.write size w in
      (some (length chunk), if ltb 0 (length chunk) then Wiring.write chunk w' else w')
]

-- The loop `while self._write_chunk(buffer.read(0x7FFF))`.
abbrev pub after_chunk : (Writer → Written × Writer) → Buffer → Option ℕ × Wire → Written × Writer
after_chunk rest b (none, w) = (err struct_error, record { wire = w; buffer = b })
after_chunk rest b (some zero, w) = (ok, record { wire = w; buffer = b })
after_chunk rest b (some (suc n), w) = rest (record { wire = w; buffer = b })

unfoldable pub write_chunks : ℕ → Writer → Written × Writer
unfolding buffer_read write_chunk
write_chunks zero w = (err out_of_fuel, w)
write_chunks (suc fuel) w =
    let (chunk, b) = buffer_read 0x7FFF w.buffer in
    after_chunk (write_chunks fuel) b (write_chunk chunk w.wire)

module _ {V : Type 0} (ps : PackStream V) where
  -- The loop over the fields; the flag says that no call of `pack` raised.
  unfoldable pub pack_fields : List V → Buffer → Bool × Buffer
  unfolding buffer_write
  pack_fields [] b = (true, b)
  pack_fields (v ∷ vs) b =
      let (bytes, done) = ps.pack v in
      let b' = buffer_write bytes b in
      let rest = pack_fields vs b' in if done then rest else (false, b')

  -- Everything after the fields are packed.
  abbrev pub write_packed : Wire → Bool × Buffer → Written × Writer
  write_packed w (false, b) = (err pack_error, record { wire = w; buffer = b })
  write_packed w (true, b) =
      let b' = seek 0 (truncate b) in
      write_chunks (suc (length b'.content)) (record { wire = w; buffer = b' })

  -- `bytearray` raises on what one byte cannot hold.
  unfoldable pub write_message : ℕ → List V → Writer → Written × Writer
  unfolding pack_fields write_chunks truncate
  write_message tag fields w =
      let b = seek 0 w.buffer in
      if leb 256 (0xB0 + length fields) || leb 256 tag
      then (err value_error, record w { buffer = b })
      else write_packed w.wire
          (pack_fields fields (buffer_write ((0xB0 + length fields) ∷ tag ∷ []) b))

pub data ReadFault : Type 0 where
  connection_broken protocol_error index_error assertion_error : ReadFault
  -- `hi, lo = …` given another number of bytes
  unpack_error : ReadFault
  -- what `wire.read(size)` raised
  wire_error : Fault → ReadFault
  out_of_fuel : ReadFault

pub data Message {ℓ} (A : Type ℓ) : Type ℓ where
  ok : A → Message A
  err : ReadFault → Message A

abbrev pub Collect : Type 0
Collect = List (List ℕ) → Wire → Message (List (List ℕ)) × Wire

-- A zero chunk ends a message, and is skipped where none has begun.
abbrev pub at_zero_chunk : Collect → Collect
at_zero_chunk again [] w = again [] w
at_zero_chunk again (c ∷ cs) w = (ok (c ∷ cs), w)

abbrev pub at_chunk :
    Collect → List (List ℕ) → Wiring.Result (List ℕ) × Wire → Message (List (List ℕ)) × Wire
at_chunk again chunks (Wiring.ok chunk, w) = again (chunks ++ chunk ∷ []) w
at_chunk again chunks (Wiring.err e, w) = (err (wire_error e), w)

-- `except WireError` stands round the read of the two bytes alone; a read that never returns is no
-- exception.
abbrev pub header_fault : Fault → ReadFault
header_fault blocked = wire_error blocked
header_fault _ = connection_broken

-- `hi << 8 | lo`, for bytes
abbrev pub at_header :
    Collect → List (List ℕ) → Wiring.Result (List ℕ) × Wire → Message (List (List ℕ)) × Wire
at_header again chunks (Wiring.ok (hi ∷ lo ∷ []), w) =
    if hi == lo && lo == 0
    then at_zero_chunk again chunks w
    else at_chunk again chunks (Wiring.read (hi * 256 + lo) w)
at_header again chunks (Wiring.ok _, w) = (err unpack_error, w)
at_header again chunks (Wiring.err e, w) = (err (header_fault e), w)

-- The loop of `read_message`.
unfoldable pub collect : ℕ → Collect
collect zero chunks w = (err out_of_fuel, w)
collect (suc fuel) chunks w = at_header (collect fuel) chunks (Wiring.read 2 w)

module _ {V : Type 0} (ps : PackStream V) where
  -- The tag is read after the fields.
  abbrev pub tagged : List V → Option ℕ → Message (ℕ × List V)
  tagged fields none = err index_error
  tagged fields (some tag) = ok (tag, fields)

  abbrev pub unpacked : List ℕ → Option (List V) → Message (ℕ × List V)
  unpacked message none = err protocol_error
  unpacked message (some fields) = tagged fields (get_elem? message 1)

  unfoldable pub decode : List ℕ → Message (ℕ × List V)
  decode [] = err assertion_error
  decode (b ∷ bs) = unpacked (b ∷ bs) (ps.unpack (b ∷ bs))

  abbrev pub decode_all : Message (List (List ℕ)) × Wire → Message (ℕ × List V) × Wire
  decode_all (ok chunks, w) = (decode (flatten chunks), w)
  decode_all (err e, w) = (err e, w)

  -- Each round of the loop takes two bytes of the stream, so its length is fuel enough.
  unfoldable pub read_message : Wire → Message (ℕ × List V) × Wire
  unfolding collect decode
  read_message w = decode_all (collect (suc (length (stream w))) [] w)

pub data Peeked : Type 0 where
  nothing : Peeked
  tag : ℕ → Peeked
  index_error out_of_fuel : Peeked

-- struct_unpack(">H", two bytes)
abbrev pub unpack_size : List ℕ → ℕ
unpack_size (hi ∷ lo ∷ []) = hi * 256 + lo
unpack_size _ = 0

-- The size at `p`, if the chunk ends before the last byte of the data; `none` is the code's -1.
unfoldable pub peek_chunk : ℕ → List ℕ → Option ℕ
peek_chunk p bytes =
    let size = unpack_size (take 2 (drop p bytes)) in
    if ltb (p + 2) (length bytes) && ltb (p + 2 + size) (length bytes) then some size else none

abbrev pub fourth : Option ℕ → Peeked
fourth none = index_error
fourth (some t) = tag t

abbrev pub at_peeked : (ℕ → Peeked) → ℕ → List ℕ → Option ℕ → Peeked
at_peeked again p bytes none = nothing
at_peeked again p bytes (some zero) = fourth (get_elem? bytes 3)
at_peeked again p bytes (some (suc size)) = again (p + (2 + suc size))

unfoldable pub peek_from : ℕ → ℕ → List ℕ → Peeked
unfolding peek_chunk
peek_from zero p bytes = out_of_fuel
peek_from (suc fuel) p bytes = at_peeked (λ q. peek_from fuel q bytes) p bytes (peek_chunk p bytes)

unfoldable pub peek_message : Wire → Peeked
unfolding peek_from Wiring.peek
peek_message w = let bytes = Wiring.peek w in peek_from (suc (length bytes)) 0 bytes
