-- ===== src/Cypher/Cursor.antt =====
-- cypher/__init__.py: `Cursor`, which moves forward over the records of a result. The result is one of Bolt, the
-- fields of its header stand beside it, and the hydrant, which turns the values of a record into objects, is
-- a parameter that is kept in the cursor.
pub mod Forward
mod Tests
use py2neo.Prelude.{
  ℕ, zero, suc, Bool, true, false, if◌then◌else◌, List, [], ◌∷◌, Option, none, some, length, map,
}
use py2neo.Bolt.Result.{BoltResult, take_record, peek}
use py2neo.Bolt.Result.Records.{remaining}
use py2neo.Cypher.Record.{
  ℤ, pos, negsuc, Key, Record, Result, ok, err, Fault, value_error, type_error, index_error,
  key_error, stop_iteration, get_item, data_of, Entries, consed,
}

pub record Cursor (V : Type 0) : Type 0 where
  pub result : BoltResult (List V)
  pub fields : List (List ℕ)
  pub hydrant : Option (List V → List V)
  pub current : Option (Record V)
  pub sample_size : ℕ

module _ {V : Type 0} where
  -- Cursor.__init__, with the default sample size
  unfoldable pub new_cursor :
      BoltResult (List V) → List (List ℕ) → Option (List V → List V) → Cursor V
  new_cursor result fields hydrant = record {
    result = result;
    fields = fields;
    hydrant = hydrant;
    current = none;
    sample_size = 3;
  }

  abbrev pub hydrated : Option (List V → List V) → List V → List V
  hydrated none values = values
  hydrated (some hydrate) values = hydrate values

  abbrev pub record_of : Cursor V → List V → Record V
  record_of c values = record { keys = c.fields; values = hydrated c.hydrant values }

  -- One turn of the loop of `forward`.
  abbrev pub moved :
      (Cursor V → ℕ × Cursor V) → Cursor V → Option (List V) × BoltResult (List V) → ℕ × Cursor V
  moved again c (none, res) = (0, record c { result = res })
  moved again c (some values, res) =
      let (n, c') = again (record c { result = res; current = some (record_of c values) }) in
      (suc n, c')

  unfoldable pub forward_by : ℕ → Cursor V → ℕ × Cursor V
  forward_by zero c = (0, c)
  forward_by (suc n) c = moved (forward_by n) c (take_record c.result)

  unfoldable pub forward : ℤ → Cursor V → Result ℕ × Cursor V
  unfolding forward_by
  forward (pos n) c = let (m, c') = forward_by n c in (ok m, c')
  forward (negsuc n) c = (err value_error, c)

  abbrev pub current_or_stop : ℕ × Cursor V → Result (Option (Record V)) × Cursor V
  current_or_stop (zero, c) = (err stop_iteration, c)
  current_or_stop (suc n, c) = (ok c.current, c)

  -- __next__
  unfoldable pub next : Cursor V → Result (Option (Record V)) × Cursor V
  unfolding forward_by
  next c = current_or_stop (forward_by 1 c)

  -- `self[field]`; there is a current record after a move.
  abbrev pub current_item : Key → Option (Record V) → Result (Option V)
  current_item key none = err type_error
  current_item key (some r) = get_item key r

  -- `except IndexError`
  abbrev pub or_none : Result (Option V) → Result (Option V)
  or_none (err index_error) = ok none
  or_none r = r

  abbrev pub evaluated : Key → ℕ × Cursor V → Result (Option V) × Cursor V
  evaluated key (zero, c) = (ok none, c)
  evaluated key (suc n, c) = (or_none (current_item key c.current), c)

  unfoldable pub evaluate : Key → Cursor V → Result (Option V) × Cursor V
  unfolding forward_by
  evaluate key c = evaluated key (forward_by 1 c)

  -- `if not limit`
  abbrev pub preview_limit : Option ℤ → Cursor V → Result ℕ
  preview_limit none c = ok c.sample_size
  preview_limit (some (pos zero)) c = ok c.sample_size
  preview_limit (some (pos (suc n))) c = ok (suc n)
  preview_limit (some (negsuc n)) c = err value_error

  abbrev pub previewed : List (List ℕ) → Result ℕ → Cursor V → Result (Option (List (List V)))
  previewed fields (err e) c = err e
  previewed [] (ok limit) c = ok none
  previewed (field ∷ fields) (ok limit) c =
      ok (some (map (hydrated c.hydrant) (peek limit c.result)))

  -- The rows of the table
  unfoldable pub preview : Option ℤ → Cursor V → Result (Option (List (List V)))
  preview limit c = previewed c.fields (preview_limit limit c) c

  abbrev pub consed_from :
      Result (Entries V)
      → Result (List (Entries V)) × Cursor V
      → Result (List (Entries V)) × Cursor V
  consed_from row (rows, c) = (consed row rows, c)

  -- A row that raises ends the iteration.
  abbrev pub row_then :
      (Cursor V → Result (List (Entries V)) × Cursor V)
      → Cursor V
      → Result (Entries V)
      → Result (List (Entries V)) × Cursor V
  row_then again c (err e) = (err e, c)
  row_then again c (ok row) = consed_from (ok row) (again c)

  abbrev pub row_of : List Key → Option (Record V) → Result (Entries V)
  row_of keys none = err type_error
  row_of keys (some r) = data_of keys r

  abbrev pub rows_from :
      (Cursor V → Result (List (Entries V)) × Cursor V)
      → List Key
      → ℕ × Cursor V
      → Result (List (Entries V)) × Cursor V
  rows_from again keys (zero, c) = (ok [], c)
  rows_from again keys (suc n, c) = row_then again c (row_of keys c.current)

  -- The iteration of `data`, which a move by nothing ends.
  unfoldable pub rows : ℕ → List Key → Cursor V → Result (List (Entries V)) × Cursor V
  unfolding forward_by
  rows zero keys c = (ok [], c)
  rows (suc fuel) keys c = rows_from (rows fuel keys) keys (forward_by 1 c)

  -- One turn more than there are records is enough.
  unfoldable pub data_rows : List Key → Cursor V → Result (List (Entries V)) × Cursor V
  unfolding rows
  data_rows keys c = rows (suc (length (remaining c.result))) keys c
