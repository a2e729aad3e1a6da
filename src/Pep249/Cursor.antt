-- ===== src/Pep249/Cursor.antt =====
-- pep249.py: `Cursor`, which runs queries on a connection and hands out the records of the last one.
-- A cursor shares its connection with others, so both are passed along. Parameter sets are only counted.
pub mod Fetching
use py2neo.Prelude.{
  ℕ, zero, suc, Bool, true, false, if◌then◌else◌, List, [], ◌∷◌, Option, none, some, length,
}
use py2neo.Bolt.Result.{BoltResult, take_record}
use py2neo.Bolt.Result.Records.{remaining}
use py2neo.Pep249.{
  Connection, Action, Result, ok, err, programming_error, ◌>>=◌, check, begin, execute_query,
}

pub record Cursor (R : Type 0) : Type 0 where
  pub result : Option (BoltResult R)
  pub closed : Bool
  pub arraysize : ℕ

module _ {R : Type 0} where
  unfoldable pub cursor : Action R (Cursor R)
  unfolding check
  cursor k = check k >>= λ _ q. (ok (record { result = none; closed = false; arraysize = 1 }), q)

  unfoldable pub close : Cursor R → Cursor R
  close c = record c { closed = true }

  unfoldable pub check_cursor : Cursor R → Action R (Unit {0})
  unfolding check
  check_cursor c k = if c.closed then (err programming_error, k) else check k

  abbrev pub ensure_tx : Option ℕ → Action R (Unit {0})
  ensure_tx none k = begin k
  ensure_tx (some t) k = (ok tt, k)

  unfoldable pub execute : Cursor R → Action R (Cursor R)
  unfolding check_cursor begin execute_query
  execute c k = check_cursor c k >>= λ _ q.
      ensure_tx q.tx q >>= λ _ s. execute_query s >>= λ r v. (ok (record c { result = some r }), v)

  unfoldable pub execute_each : ℕ → Cursor R → Action R (Cursor R)
  unfolding execute
  execute_each zero c k = (ok c, k)
  execute_each (suc n) c k = execute c k >>= λ d q. execute_each n d q

  unfoldable pub executemany : ℕ → Cursor R → Action R (Cursor R)
  unfolding execute_each check_cursor
  executemany n c k = check_cursor c k >>= λ _ q. execute_each n c q

  -- Each turn of the loops of `fetchmany` and `fetchall`, which the end of the records ends.
  abbrev pub collected :
      (BoltResult R → List R × BoltResult R) → Option R × BoltResult R → List R × BoltResult R
  collected again (none, res) = ([], res)
  collected again (some r, res) = let (rs, res') = again res in (r ∷ rs, res')

  unfoldable pub fetch_up_to : ℕ → BoltResult R → List R × BoltResult R
  fetch_up_to zero res = ([], res)
  fetch_up_to (suc n) res = collected (fetch_up_to n) (take_record res)

  abbrev pub fetched : Cursor R → List R × BoltResult R → Action R (List R × Cursor R)
  fetched c (rs, res) k = (ok (rs, record c { result = some res }), k)

  abbrev pub fetchone_from : Option (BoltResult R) → Cursor R → Action R (Option R × Cursor R)
  fetchone_from none c k = (ok (none, c), k)
  fetchone_from (some res) c k =
      let (r, res') = take_record res in (ok (r, record c { result = some res' }), k)

  unfoldable pub fetchone : Cursor R → Action R (Option R × Cursor R)
  unfolding check_cursor
  fetchone c k = check_cursor c k >>= λ _ q. fetchone_from c.result c q

  abbrev pub or_arraysize : Option ℕ → Cursor R → ℕ
  or_arraysize none c = c.arraysize
  or_arraysize (some size) c = size

  abbrev pub fetchmany_from : Option (BoltResult R) → ℕ → Cursor R → Action R (List R × Cursor R)
  fetchmany_from none size c k = (ok ([], c), k)
  fetchmany_from (some res) size c k = fetched c (fetch_up_to size res) k

  unfoldable pub fetchmany : Option ℕ → Cursor R → Action R (List R × Cursor R)
  unfolding check_cursor fetch_up_to
  fetchmany size c k = check_cursor c k >>= λ _ q. fetchmany_from c.result (or_arraysize size c) c q

  -- The loop of `fetchall` runs until no record is found; one turn more than there are records is enough.
  abbrev pub fetchall_from : Option (BoltResult R) → Cursor R → Action R (List R × Cursor R)
  fetchall_from none c k = (ok ([], c), k)
  fetchall_from (some res) c k = fetched c (fetch_up_to (suc (length (remaining res))) res) k

  unfoldable pub fetchall : Cursor R → Action R (List R × Cursor R)
  unfolding check_cursor fetch_up_to
  fetchall c k = check_cursor c k >>= λ _ q. fetchall_from c.result c q
