-- ===== src/Bolt/Message/RoundTrip.antt =====
-- What `write_message` puts on the wire, `read_message` takes off it.
use py2neo.Prelude.{ℕ, List, ◌<◌, ◌+◌, length, ◌≡◌, some, [], ◌++◌, ◌∙◌, ap}
use py2neo.Wiring.{Wire}
use py2neo.Wiring.Reading.{stream, IsCounted}
use py2neo.Bolt.Message.{PackStream, Writer, write_message, read_message, decode, ok}
use py2neo.Bolt.Message.Chunks.{keep_alives}
use py2neo.Bolt.Message.Writing.{Packable, payload, write_message-Writes}
use py2neo.Bolt.Message.Reading.{read_message-IsChunked}

module _ {V : Type 0} (ps : PackStream V) where
  -- A message that `write_message` accepts, arriving behind any number of null messages and split by the
  -- network in any way, is read back with its tag and its fields, and what follows it is left for the
  -- next read. The packer accepts the fields, and the unpacker reads what the packer wrote.
  pub read_message-write_message :
      (tag : ℕ) (fields : List V) (writer : Writer) (wire : Wire) (n : ℕ) (rest : List ℕ)
      → tag < 256
      → 0xB0 + length fields < 256
      → Packable ps fields
      → ps.unpack (payload ps tag fields) ≡ some fields
      → writer.wire.output ≡ []
      → IsCounted wire
      → stream wire ≡ keep_alives n ((write_message ps tag fields writer).1.wire.output ++ rest)
      → ((read_message ps wire).0 ≡ ok (tag, fields)) × (stream (read_message ps wire).1 ≡ rest)
  read_message-write_message tag fields writer wire n rest ht hn p u e c s =
      let sent = write_message-Writes ps tag fields writer ht hn p in
      let arrived =
        s ∙ ap (λ x. keep_alives n (x ++ rest)) (sent.sent ∙ ap (λ x. x ++ sent.encoded) e) in
      let r = read_message-IsChunked ps n rest wire sent.is_chunked (λ x. cc) c arrived in
      (r.0 ∙ (unfold decode in rw u), r.1)
