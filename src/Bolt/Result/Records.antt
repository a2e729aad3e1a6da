-- ===== src/Bolt/Result/Records.antt =====
-- The records of a result are a queue, over however many responses they come.
use py2neo.Prelude.{
  Bool-cases, inl, inr, length-take, take-append-drop, length-append, length-drop, ℕ, zero, suc,
  refl, ◌≡◌, ◌∙◌, sym, ap, ◌+◌, ◌-◌, ◌<◌, List, [], ◌∷◌, ◌++◌, length, take, drop, Option, none,
  some, arith, append_assoc, append-nil, drop-append, length-take_of_le, drop-drop, ◌==◌,
}
use py2neo.Bolt.Result.{
  BoltResponse, BoltResult, pop_first, pop_at, passed_over, taken, take_record, peek_each, peek,
}

module _ {R : Type 0} where
  abbrev pub records_of : List (BoltResponse R) → List R
  records_of [] = []
  records_of (rsp ∷ rest) = rsp.records ++ records_of rest

  -- The records that are there and not yet taken, in order.
  abbrev pub remaining : BoltResult R → List R
  remaining res = records_of (drop res.last_taken res.items)

  -- The place of the last record taken is a place of the list of responses.
  abbrev pub IsPlaced : BoltResult R → Type 0
  IsPlaced res = res.last_taken < length res.items

  -- What `pop_first` finds is the first of the records, if there is one.
  Pops : List (BoltResponse R) → Option (ℕ × R) × List (BoltResponse R) → Type 0
  Pops items (none, rest) = (records_of items ≡ []) × (rest ≡ items)
  Pops items (some (n, r), rest) =
      (records_of items ≡ r ∷ records_of (drop n rest))
      × (n < length items)
      × (length rest ≡ length items)

  pass-Pops :
      (rsp : BoltResponse R) (items : List (BoltResponse R))
      (o : Option (ℕ × R) × List (BoltResponse R))
      → rsp.records ≡ []
      → Pops items o
      → Pops (rsp ∷ items) (passed_over o.0, rsp ∷ o.1)
  unfolding Pops
  pass-Pops rsp items (none, rest) e p = (rw e p.0, ap (◌∷◌ rsp) p.1)
  pass-Pops rsp items (some (n, r), rest) e p = (rw e p.0, omega (arith, p.1), omega (arith, p.2))

  pop_first-Pops : (items : List (BoltResponse R)) → Pops items (pop_first items)
  unfolding Pops pop_first
  pop_first-Pops [] = (refl, refl)
  pop_first-Pops (rsp ∷ rest) = go rsp.records refl (pop_first-Pops rest)
    where
      go :
          (rs : List R)
          → rsp.records ≡ rs
          → Pops rest (pop_first rest)
          → Pops (rsp ∷ rest) (pop_at rs rsp rest (pop_first rest))
      go [] e p = pass-Pops rsp rest (pop_first rest) e p
      go (r ∷ rs) e p = (rw e refl, omega arith, refl)

  -- What taking the first of some records leaves.
  abbrev pub first : List R → Option R
  first [] = none
  first (r ∷ rs) = some r

  taken-remaining :
      (res : BoltResult R) (o : Option (ℕ × R) × List (BoltResponse R))
      → IsPlaced res
      → Pops (drop res.last_taken res.items) o
      → ((taken res o).0 ≡ first (remaining res))
        × (remaining (taken res o).1 ≡ drop 1 (remaining res))
        × IsPlaced (taken res o).1
  unfolding Pops
  taken-remaining res (none, rest) v p =
      let e : take res.last_taken res.items ++ rest ≡ res.items =
        ap (λ x. take res.last_taken res.items ++ x) p.1
        ∙ take-append-drop res.last_taken res.items in
      (
        sym (ap first p.0),
        ap (λ x. records_of (drop res.last_taken x)) e ∙ (p.0 ∙ sym (ap (drop 1) p.0)),
        omega (arith, v, ap length e),
      )
  taken-remaining res (some (n, r), rest) v p =
      let front = take res.last_taken res.items in
      let l : length front ≡ res.last_taken =
        length-take_of_le res.last_taken res.items (omega (arith, v)) in
      let e : drop (res.last_taken + n) (front ++ rest) ≡ drop n rest =
        sym (drop-drop res.last_taken n (res.last_taken + n) (front ++ rest) refl)
        ∙ ap (drop n) (drop-append front rest res.last_taken (sym l)) in
      (
        sym (ap first p.0),
        ap records_of e ∙ sym (ap (drop 1) p.0),
        omega
            (arith, v, p.1, p.2, l, length-append front rest, length-drop res.last_taken res.items),
      )

  -- `take` gives the first record that remains, if there is one, and leaves the others in order.
  pub take_record-remaining :
      (res : BoltResult R)
      → IsPlaced res
      → ((take_record res).0 ≡ first (remaining res))
        × (remaining (take_record res).1 ≡ drop 1 (remaining res))
        × IsPlaced (take_record res).1
  unfolding take_record
  take_record-remaining res v =
      taken-remaining res (pop_first (drop res.last_taken res.items)) v
        (pop_first-Pops (drop res.last_taken res.items))

  take_none : (n : ℕ) → take {A = R} n [] ≡ []
  take_none zero = refl
  take_none (suc n) = refl

  take_zero : (n : ℕ) (xs : List R) → n ≡ 0 → take n xs ≡ []
  take_zero n xs e = ap (λ m. take m xs) e

  take_split :
      (n k : ℕ) (xs ys : List R)
      → length (take n xs) + k ≡ n
      → take n (xs ++ ys) ≡ take n xs ++ take k ys
  take_split zero k xs ys e = sym (take_zero k ys (omega (arith, e)))
  take_split (suc n) k [] ys e = let i : suc n ≡ k = omega (arith, e) in ap (λ j. take j ys) i
  take_split (suc n) k (x ∷ xs) ys e = ap (◌∷◌ x) (take_split n k xs ys (omega (arith, e)))

  peek_each-records_of :
      (limit k : ℕ) (found : List R) (items : List (BoltResponse R))
      → length found + k ≡ limit
      → peek_each limit found items ≡ found ++ take k (records_of items)
  unfolding peek_each
  peek_each-records_of limit k found [] h =
      sym (ap (λ x. found ++ x) (take_none k) ∙ append-nil found)
  peek_each-records_of limit k found (rsp ∷ rest) h =
      let e : limit - length found ≡ k = omega (arith, h) in
      let part = take k rsp.records in
      let k' = k - length part in
      let l : length part + k' ≡ k = omega (arith, length-take k rsp.records) in
      let found' = found ++ part in
      let l' : length found' + k' ≡ limit = omega (arith, l, h, length-append found part) in
      let split : found' ++ take k' (records_of rest)
          ≡ found ++ take k (rsp.records ++ records_of rest) =
        append_assoc found part (take k' (records_of rest))
        ∙ ap (λ x. found ++ x) (sym (take_split k k' rsp.records (records_of rest) l)) in
      rw e (elim (Bool-cases (length found' == limit)) [
        | inl reached ↦ rw reached (
            sym (append-nil found')
            ∙ ap (λ x. found' ++ x)
                (sym (take_zero k' (records_of rest) (ground (arith, l', reached))))
            ∙ split)
        | inr short ↦ rw short (peek_each-records_of limit k' found' rest l' ∙ split)
      ])

  -- `peek` gives the first `limit` records that remain, or all of them where there are fewer, and takes none.
  peek-remaining : (limit : ℕ) (res : BoltResult R) → peek limit res ≡ take limit (remaining res)
  unfolding peek
  peek-remaining limit res =
      peek_each-records_of limit limit [] (drop res.last_taken res.items) (omega arith)
