-- ===== src/Bolt/Result/Queue.antt =====
-- A result while its records arrive and are taken, over any number of requests for more.
use py2neo.Prelude.{
  ℕ, zero, suc, refl, ◌≡◌, ◌∙◌, sym, ap, ◌<◌, List, [], ◌∷◌, ◌++◌, length, drop, Option, none, some,
  Bool, false, arith, append_assoc, append-nil, drop-append_le, length-append,
}
use py2neo.Bolt.Result.{BoltResponse, BoltResult, take_record, append, add_records, new_response}
use py2neo.Bolt.Result.Records.{records_of, remaining, IsPlaced, first, take_record-remaining}

-- More records are asked for, and a response is appended; records arrive for the last response; a record
-- is taken.
pub data Event (R : Type 0) : Type 0 where
  asks : Bool → Event R
  arrives : List R → Event R
  takes : Event R

module _ {R : Type 0} where
  arrive_last : List R → List (BoltResponse R) → List (BoltResponse R)
  unfolding add_records
  arrive_last values [] = []
  arrive_last values (rsp ∷ []) = add_records values rsp ∷ []
  arrive_last values (rsp ∷ next ∷ rest) = rsp ∷ arrive_last values (next ∷ rest)

  arrive_last-records_of :
      (n : ℕ) (values : List R) (items : List (BoltResponse R))
      → n < length items
      → (records_of (drop n (arrive_last values items)) ≡ records_of (drop n items) ++ values)
        × (length (arrive_last values items) ≡ length items)
  unfolding arrive_last add_records
  arrive_last-records_of n values [] h = absurd (omega arith)
  arrive_last-records_of zero values (rsp ∷ []) h = (
    append-nil (rsp.records ++ values) ∙ sym (ap (λ x. x ++ values) (append-nil rsp.records)),
    refl,
  )
  arrive_last-records_of (suc n) values (rsp ∷ []) h = absurd (omega arith)
  arrive_last-records_of zero values (rsp ∷ next ∷ rest) h =
      let ih = arrive_last-records_of zero values (next ∷ rest) (omega arith) in
      (
        ap (λ x. rsp.records ++ x) ih.0
            ∙ sym (append_assoc rsp.records (records_of (next ∷ rest)) values),
        ap suc ih.1,
      )
  arrive_last-records_of (suc n) values (rsp ∷ next ∷ rest) h =
      let ih = arrive_last-records_of n values (next ∷ rest) (omega (arith, h)) in
      (ih.0, ap suc ih.1)

  records_of-append :
      (xs ys : List (BoltResponse R)) → records_of (xs ++ ys) ≡ records_of xs ++ records_of ys
  records_of-append [] ys = refl
  records_of-append (x ∷ xs) ys =
      ap (λ z. x.records ++ z) (records_of-append xs ys)
      ∙ sym (append_assoc x.records (records_of xs) (records_of ys))

  abbrev noted : Option R → List R → List R
  noted none rs = rs
  noted (some r) rs = r ∷ rs

  noted-first : (rs xs ys : List R) → xs ≡ drop 1 rs ++ ys → noted (first rs) xs ≡ rs ++ ys
  noted-first [] xs ys e = e
  noted-first (r ∷ rs) xs ys e = ap (◌∷◌ r) e

  noted-append : (o : Option R) (xs ys : List R) → noted o xs ++ ys ≡ noted o (xs ++ ys)
  noted-append none xs ys = refl
  noted-append (some r) xs ys = refl

  -- The records that were taken, in order, and the result then.
  pub run : List (Event R) → BoltResult R → List R × BoltResult R
  unfolding arrive_last append take_record
  run [] res = ([], res)
  run (asks final ∷ es) res = run es (append (new_response none false) final res)
  run (arrives values ∷ es) res = run es (record res { items = arrive_last values res.items })
  run (takes ∷ es) res =
      let (taken, res') = take_record res in
      let (others, last) = run es res' in (noted taken others, last)

  -- All the records that arrive.
  abbrev pub arrivals : List (Event R) → List R
  arrivals [] = []
  arrivals (arrives values ∷ es) = values ++ arrivals es
  arrivals (_ ∷ es) = arrivals es

  append-remaining :
      (final : Bool) (res : BoltResult R)
      → IsPlaced res
      → (remaining (append (new_response none false) final res) ≡ remaining res)
        × IsPlaced (append (new_response none false) final res)
  unfolding append
  append-remaining final res v =
      let rsp = new_response {R = R} none false in
      (
        ap records_of (drop-append_le res.last_taken res.items (rsp ∷ []) (omega (arith, v)))
            ∙ records_of-append (drop res.last_taken res.items) (rsp ∷ [])
            ∙ append-nil (remaining res),
        omega (arith, v, length-append res.items (rsp ∷ [])),
      )

  -- Records come out of a result in the order in which they arrived, whatever requests they came for and
  -- however the arrivals, the requests and the calls of `take` follow one another: what was taken,
  -- followed by what remains, is what remained before, followed by what has arrived since.
  pub run-remaining :
      (es : List (Event R)) (res : BoltResult R)
      → IsPlaced res
      → (run es res).0 ++ remaining (run es res).1 ≡ remaining res ++ arrivals es
  unfolding run
  run-remaining [] res v = sym (append-nil (remaining res))
  run-remaining (asks final ∷ es) res v =
      let (same, placed) = append-remaining final res v in
      run-remaining es (append (new_response none false) final res) placed
      ∙ ap (λ x. x ++ arrivals es) same
  run-remaining (arrives values ∷ es) res v =
      let (more, long) = arrive_last-records_of res.last_taken values res.items v in
      run-remaining es (record res { items = arrive_last values res.items })
        (omega (arith, v, long))
      ∙ (ap (λ x. x ++ arrivals es) more ∙ append_assoc (remaining res) values (arrivals es))
  run-remaining (takes ∷ es) res v =
      let (head, tail, placed) = take_record-remaining res v in
      let ih = run-remaining es (take_record res).1 placed in
      noted-append (take_record res).0 (run es (take_record res).1).0
        (remaining (run es (take_record res).1).1)
      ∙ (ap
            (λ o.
              noted o ((run es (take_record res).1).0 ++ remaining (run es (take_record res).1).1))
            head
          ∙ noted-first (remaining res) _ (arrivals es) (ih ∙ ap (λ x. x ++ arrivals es) tail))
