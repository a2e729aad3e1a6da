-- ===== src/Bolt/Message/Chunks.antt =====
-- The chunked encoding of a message, as the protocol describes it, apart from the code.
use Prim.Native.Nat.{◌/◌, ◌%◌}
use py2neo.Prelude.{ℕ, ◌<◌, ◌≡◌, ◌≢◌, List, [], ◌∷◌, ◌++◌, length, zero, suc}

-- A chunk is its size in two bytes and then its bytes; a zero chunk ends the message.
pub data IsChunked : List ℕ → List ℕ → Type 0 where
  end : {payload encoded : List ℕ} → payload ≡ [] → encoded ≡ 0 ∷ 0 ∷ [] → IsChunked payload encoded
  chunk :
      {payload encoded : List ℕ} (bytes payload' encoded' : List ℕ)
      → bytes ≢ []
      → length bytes < 65536
      → payload ≡ bytes ++ payload'
      → encoded ≡ length bytes / 256 ∷ length bytes % 256 ∷ (bytes ++ encoded')
      → IsChunked payload' encoded'
      → IsChunked payload encoded

-- Null messages, which a server sends to keep the connection alive.
abbrev pub keep_alives : ℕ → List ℕ → List ℕ
keep_alives zero bytes = bytes
keep_alives (suc n) bytes = 0 ∷ 0 ∷ keep_alives n bytes
