-- ===== src/Cypher/Cursor/Forward.antt =====
-- How far `forward` moves, and where it stands then.
use py2neo.Prelude.{
  ℕ, zero, suc, refl, ◌≡◌, ◌∙◌, ap, List, [], ◌∷◌, Option, none, some, length, take, drop, arith,
  min, map,
}
use py2neo.Bolt.Result.{BoltResult, take_record}
use py2neo.Bolt.Result.Records.{remaining, IsPlaced, first, take_record-remaining}
use py2neo.Cypher.Record.{pos, ok, Record}
use py2neo.Cypher.Cursor.{Cursor, record_of, forward, forward_by, moved}

module _ {V : Type 0} where
  -- The last of some records that were passed, or the record before them.
  abbrev pub last_or : Option (Record V) → List (Record V) → Option (Record V)
  last_or before [] = before
  last_or before (r ∷ rs) = last_or (some r) rs

  Forwards : ℕ → Cursor V → List (List V) → ℕ × Cursor V → Type 0
  Forwards n c rem (m, c') =
      (m ≡ min n (length rem))
      × (c'.current ≡ last_or c.current (map (record_of c) (take n rem)))
      × (remaining c'.result ≡ drop n rem)
      × IsPlaced c'.result
      × (c'.fields ≡ c.fields)

  moved-Forwards :
      (n : ℕ) (c : Cursor V) (rem : List (List V)) (o : Option (List V) × BoltResult (List V))
      → o.0 ≡ first rem
      → remaining o.1 ≡ drop 1 rem
      → IsPlaced o.1
      → ((d : Cursor V) → IsPlaced d.result → Forwards n d (remaining d.result) (forward_by n d))
      → Forwards (suc n) c rem (moved (forward_by n) c o)
  unfolding Forwards
  moved-Forwards n c [] (none, res) e m p ih = (omega arith, refl, m, p, refl)
  moved-Forwards n c [] (some r, res) e m p ih = cc
  moved-Forwards n c (x ∷ xs) (none, res) e m p ih = cc
  moved-Forwards n c (x ∷ xs) (some r, res) e m p ih =
      let d = record c { result = res; current = some (record_of c r) } in
      let (moves, now, rest, q, f) = ih d p in
      let same_record : r ≡ x = cc in
      (
        omega (arith, moves, ap length m),
        now
            ∙ ap (λ rs. last_or (some (record_of c r)) (map (record_of c) (take n rs))) m
            ∙ ap (λ v. last_or (some (record_of c v)) (map (record_of c) (take n xs))) same_record,
        rest ∙ ap (drop n) m,
        q,
        f,
      )

  forward_by-Forwards :
      (n : ℕ) (c : Cursor V)
      → IsPlaced c.result
      → Forwards n c (remaining c.result) (forward_by n c)
  unfolding Forwards forward_by
  forward_by-Forwards zero c p = (omega arith, refl, refl, p, refl)
  forward_by-Forwards (suc n) c p =
      let (e, m, q) = take_record-remaining c.result p in
      moved-Forwards n c (remaining c.result) (take_record c.result) e m q (forward_by-Forwards n)

  -- `forward` of an amount from 0 moves over as many records as it says, or as remain where there are fewer, and
  -- returns how many. The current record is then the last that it passed, with the cursor's fields as keys and
  -- its values hydrated, or the same as before where it passed none, and the records after it remain.
  pub forward-take :
      (n : ℕ) (c : Cursor V)
      → IsPlaced c.result
      → ((forward (pos n) c).0 ≡ ok (min n (length (remaining c.result))))
        × ((forward (pos n) c).1.current
            ≡ last_or c.current (map (record_of c) (take n (remaining c.result))))
        × (remaining (forward (pos n) c).1.result ≡ drop n (remaining c.result))
  unfolding forward Forwards
  forward-take n c p = let (e, now, rest, q, f) = forward_by-Forwards n c p in (ap ok e, now, rest)
