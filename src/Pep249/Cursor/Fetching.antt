-- ===== src/Pep249/Cursor/Fetching.antt =====
-- What the fetching methods of a cursor hand out: the records of the result, in order.
use py2neo.Prelude.{
  ℕ, zero, suc, refl, ◌≡◌, ◌∙◌, ap, List, [], ◌∷◌, Option, none, some, length, take, drop, take_all,
  drop_all, arith,
}
use py2neo.Bolt.Result.{BoltResult, take_record}
use py2neo.Bolt.Result.Records.{remaining, IsPlaced, first, take_record-remaining}
use py2neo.Pep249.{Connection, Action, Result, ◌>>=◌, ok}
use py2neo.Pep249.Cursor.{
  Cursor, check_cursor, collected, fetch_up_to, fetchmany_from, fetchmany, fetchall_from, fetchall,
  or_arraysize,
}

module _ {R : Type 0} where
  -- From `rem` records, `n` are handed out.
  Fetches : ℕ → List R → List R × BoltResult R → Type 0
  Fetches n rem (rs, res) = (rs ≡ take n rem) × (remaining res ≡ drop n rem) × IsPlaced res

  collected-Fetches :
      (n : ℕ) (rem : List R) (o : Option R × BoltResult R)
      → o.0 ≡ first rem
      → remaining o.1 ≡ drop 1 rem
      → IsPlaced o.1
      → ((res : BoltResult R) → IsPlaced res → Fetches n (remaining res) (fetch_up_to n res))
      → Fetches (suc n) rem (collected (fetch_up_to n) o)
  unfolding Fetches
  collected-Fetches n [] (none, res) e m p ih = (refl, m, p)
  collected-Fetches n [] (some r, res) e m p ih = cc
  collected-Fetches n (x ∷ xs) (none, res) e m p ih = cc
  collected-Fetches n (x ∷ xs) (some r, res) e m p ih =
      let (t, l, q) = ih res p in
      let i : r ≡ x = cc in (rw i (ap (◌∷◌ x) (t ∙ ap (take n) m)), l ∙ ap (drop n) m, q)

  fetch_up_to_lem :
      (n : ℕ) (res : BoltResult R) → IsPlaced res → Fetches n (remaining res) (fetch_up_to n res)
  unfolding fetch_up_to Fetches
  fetch_up_to_lem zero res p = (refl, refl, p)
  fetch_up_to_lem (suc n) res p =
      let (e, m, q) = take_record-remaining res p in
      collected-Fetches n (remaining res) (take_record res) e m q (fetch_up_to_lem n)

  then_ok :
      {A : Type 0} (m : Result (Unit {0}) × Connection R) (k : Connection R) (f : Action R A)
      → m ≡ (ok tt, k)
      → (m >>= λ _ q. f q) ≡ f k
  then_ok m k f e = ap (λ (r : Result (Unit {0}) × Connection R). r >>= λ _ q. f q) e

  -- `fetchmany` hands out the next records of the last query's result, as many as are asked for, or as the
  -- cursor's `arraysize` says, or all where there are fewer, and leaves the others for later calls. The
  -- cursor and its connection are open.
  pub fetchmany-take :
      (size : Option ℕ) (c : Cursor R) (k : Connection R) (res : BoltResult R)
      → check_cursor c k ≡ (ok tt, k)
      → c.result ≡ some res
      → IsPlaced res
      → (res' : BoltResult R) × (fetchmany size c k
          ≡ (ok (take (or_arraysize size c) (remaining res), record c { result = some res' }), k))
        × (remaining res' ≡ drop (or_arraysize size c) (remaining res))
  unfolding fetchmany Fetches
  fetchmany-take size c k res opened e p =
      let n = or_arraysize size c in
      let (rs, rest, q) = fetch_up_to_lem n res p in
      (
        (fetch_up_to n res).1,
        then_ok (check_cursor c k) k (fetchmany_from c.result n c) opened
            ∙ (ap (λ r. fetchmany_from r n c k) e
                ∙ ap (λ xs. (ok (xs, record c { result = some (fetch_up_to n res).1 }), k)) rs),
        rest,
      )

  -- `fetchall` hands out all records that remain, in order, and leaves none. The cursor and its connection
  -- are open.
  fetchall-remaining :
      (c : Cursor R) (k : Connection R) (res : BoltResult R)
      → check_cursor c k ≡ (ok tt, k)
      → c.result ≡ some res
      → IsPlaced res
      → (res' : BoltResult R) × (fetchall c k
          ≡ (ok (remaining res, record c { result = some res' }), k))
        × (remaining res' ≡ [])
  unfolding fetchall Fetches
  fetchall-remaining c k res opened e p =
      let n = suc (length (remaining res)) in
      let (rs, rest, q) = fetch_up_to_lem n res p in
      (
        (fetch_up_to n res).1,
        then_ok (check_cursor c k) k (fetchall_from c.result c) opened
            ∙ (ap (λ r. fetchall_from r c k) e
                ∙ ap (λ xs. (ok (xs, record c { result = some (fetch_up_to n res).1 }), k))
                    (rs ∙ take_all n (remaining res) (omega arith))),
        rest ∙ drop_all n (remaining res) (omega arith),
      )
