-- ===== src/Bolt/Result.antt =====
-- client/bolt.py: `BoltResponse`, `ItemizedTask` and `BoltResult`, the responses to the requests of a query
-- and the records that they bring. Of the metadata the entry `has_more` is modelled; an error is a number.
-- `_items_len` is the length of `_items`, which `append` alone makes longer.
pub mod Records
pub mod Queue
pub mod Auditing
mod Tests
use py2neo.Prelude.{
  suc, ℕ, ◌+◌, ◌-◌, Bool, true, false, not, ◌&&◌, ◌||◌, if◌then◌else◌, ◌==◌, leb, length, take,
  drop, get_elem?, List, [], ◌∷◌, ◌++◌, Option, none, some, map,
}

-- `capacity` is absent where the source has a negative number. The status is 0 for not done, 1 for
-- success, 2 for failure and 3 for ignored.
pub record BoltResponse (R : Type 0) : Type 0 where
  pub capacity : Option ℕ
  pub vital : Bool
  pub records : List R
  pub status : ℕ
  pub has_more : Option Bool
  pub failure : Option ℕ

pub record BoltResult (R : Type 0) : Type 0 where
  pub items : List (BoltResponse R)
  pub is_complete : Bool
  pub last_taken : ℕ

abbrev pub or_else : Option Bool → Option Bool → Option Bool
or_else none old = old
or_else (some b) old = some b

abbrev pub reaches : Option ℕ → ℕ → Bool
reaches none n = false
reaches (some capacity) n = leb capacity n

-- `get("has_more", False)`
abbrev pub or_false : Option Bool → Bool
or_false none = false
or_false (some b) = b

module _ {R : Type 0} where
  abbrev pub new_response : Option ℕ → Bool → BoltResponse R
  new_response capacity vital = record {
    capacity = capacity;
    vital = vital;
    records = [];
    status = 0;
    has_more = none;
    failure = none;
  }

  unfoldable pub add_records : List R → BoltResponse R → BoltResponse R
  add_records values rsp = record rsp { records = rsp.records ++ values }

  -- `update` of the metadata keeps an entry that the new metadata does not name.
  unfoldable pub set_success : Option Bool → BoltResponse R → BoltResponse R
  set_success has_more rsp = record rsp { status = 1; has_more = or_else has_more rsp.has_more }

  unfoldable pub set_failure : ℕ → BoltResponse R → BoltResponse R
  set_failure error rsp = record rsp { status = 2; failure = some error }

  unfoldable pub set_ignored : BoltResponse R → BoltResponse R
  set_ignored rsp = record rsp { status = 3 }

  unfoldable pub full : BoltResponse R → Bool
  full rsp = reaches rsp.capacity (length rsp.records)

  unfoldable pub response_done : BoltResponse R → Bool
  response_done rsp = not (rsp.status == 0)

  unfoldable pub response_failed : BoltResponse R → Bool
  response_failed rsp = leb 2 rsp.status

  -- The error that is raised, and the response afterwards.
  abbrev pub raise_failure : Option ℕ → BoltResponse R → Option ℕ × BoltResponse R
  raise_failure none rsp = (none, rsp)
  raise_failure (some error) rsp = (some error, set_ignored rsp)

  unfoldable pub audit_response : BoltResponse R → Option ℕ × BoltResponse R
  audit_response rsp = raise_failure rsp.failure rsp

  unfoldable pub new_result : BoltResponse R → BoltResult R
  new_result rsp = record { items = rsp ∷ []; is_complete = false; last_taken = 0 }

  -- ItemizedTask.append
  unfoldable pub append : BoltResponse R → Bool → BoltResult R → BoltResult R
  append rsp final res = record res {
    items = res.items ++ rsp ∷ [];
    is_complete = res.is_complete || final;
  }

  abbrev pub last_done : List (BoltResponse R) → Bool
  last_done [] = true
  last_done (rsp ∷ []) = response_done rsp
  last_done (rsp ∷ next ∷ rest) = last_done (next ∷ rest)

  -- ItemizedTask.done
  unfoldable pub done : BoltResult R → Bool
  done res = if res.is_complete then last_done res.items else false

  abbrev pub any_failed : List (BoltResponse R) → Bool
  any_failed [] = false
  any_failed (rsp ∷ rest) = response_failed rsp || any_failed rest

  -- ItemizedTask.failed
  unfoldable pub failed : BoltResult R → Bool
  failed res = any_failed res.items

  -- One turn of the loop of `audit`, which an error ends: `others` is what the later turns would do.
  abbrev pub after_audit :
      List (BoltResponse R)
      → Option ℕ × List (BoltResponse R)
      → Option ℕ × BoltResponse R
      → Option ℕ × List (BoltResponse R)
  after_audit rest others (none, rsp) = (others.0, rsp ∷ others.1)
  after_audit rest others (some error, rsp) = (some error, rsp ∷ rest)

  unfoldable pub audit_each : List (BoltResponse R) → Option ℕ × List (BoltResponse R)
  unfolding audit_response
  audit_each [] = (none, [])
  audit_each (rsp ∷ rest) = after_audit rest (audit_each rest) (audit_response rsp)

  unfoldable pub audit : BoltResult R → Option ℕ × BoltResult R
  audit res = let (found, items) = audit_each res.items in (found, record res { items = items })

  abbrev pub passed_over : Option (ℕ × R) → Option (ℕ × R)
  passed_over none = none
  passed_over (some (n, r)) = some (suc n, r)

  abbrev pub pop_at :
      List R
      → BoltResponse R
      → List (BoltResponse R)
      → Option (ℕ × R) × List (BoltResponse R)
      → Option (ℕ × R) × List (BoltResponse R)
  pop_at [] rsp rest others = (passed_over others.0, rsp ∷ others.1)
  pop_at (r ∷ rs) rsp rest others = (some (0, r), record rsp { records = rs } ∷ rest)

  -- The loop of `take`: how many responses are passed over, and the record that is found.
  unfoldable pub pop_first : List (BoltResponse R) → Option (ℕ × R) × List (BoltResponse R)
  pop_first [] = (none, [])
  pop_first (rsp ∷ rest) = pop_at rsp.records rsp rest (pop_first rest)

  -- `_last_taken` moves only when a record is found.
  abbrev pub taken : BoltResult R → Option (ℕ × R) × List (BoltResponse R) → Option R × BoltResult R
  taken res (none, rest) = (none, record res { items = take res.last_taken res.items ++ rest })
  taken res (some (n, r), rest) = (
    some r,
    record res { items = take res.last_taken res.items ++ rest; last_taken = res.last_taken + n },
  )

  unfoldable pub take_record : BoltResult R → Option R × BoltResult R
  unfolding pop_first
  take_record res = taken res (pop_first (drop res.last_taken res.items))

  -- The loop of `peek`, which ends when `limit` records are found.
  unfoldable pub peek_each : ℕ → List R → List (BoltResponse R) → List R
  peek_each limit found [] = found
  peek_each limit found (rsp ∷ rest) =
      let found' = found ++ take (limit - length found) rsp.records in
      let more = peek_each limit found' rest in if length found' == limit then found' else more

  unfoldable pub peek : ℕ → BoltResult R → List R
  unfolding peek_each
  peek limit res = peek_each limit [] (drop res.last_taken res.items)

  abbrev pub all_more : List (BoltResponse R) → Bool
  all_more [] = true
  all_more (rsp ∷ rest) = or_false rsp.has_more && all_more rest

  unfoldable pub has_more_records : BoltResult R → Bool
  has_more_records res = all_more (drop 1 res.items)
