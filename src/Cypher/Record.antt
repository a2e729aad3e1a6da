-- ===== src/Cypher/Record.antt =====
-- cypher/__init__.py: `Record`, the values of a record under the keys of its query. A key is a text, the list
-- of its code points; None is absence. A dictionary is a list of entries without two of the same key.
pub mod Lookup
use py2neo.Prelude.{
  ℕ, zero, suc, Bool, true, false, if◌then◌else◌, List, [], ◌∷◌, Option, none, some, length,
  get_elem?, ltb,
}
use py2neo.Errors.{same}

pub data ℤ : Type 0 where
  pos negsuc : ℕ → ℤ

pub data Key : Type 0 where
  at : ℤ → Key
  named : List ℕ → Key

pub data Fault : Type 0 where
  index_error key_error value_error type_error stop_iteration : Fault

pub data Result {ℓ} (A : Type ℓ) : Type ℓ where
  ok : A → Result A
  err : Fault → Result A

pub record Record (V : Type 0) : Type 0 where
  pub keys : List (List ℕ)
  pub values : List V

abbrev pub next_place : Option ℕ → Option ℕ
next_place none = none
next_place (some i) = some (suc i)

-- `index` of the tuple of keys
abbrev pub place : List ℕ → List (List ℕ) → Option ℕ
place k [] = none
place k (key ∷ keys) = let rest = next_place (place k keys) in if same k key then some 0 else rest

abbrev pub or_key_error : Option ℕ → Result ℕ
or_key_error none = err key_error
or_key_error (some i) = ok i

abbrev pub consed : {A : Type 0} → Result A → Result (List A) → Result (List A)
consed (ok a) (ok rest) = ok (a ∷ rest)
consed (ok a) (err e) = err e
consed (err e) rest = err e

-- Assignment to a key of a dictionary.
abbrev pub assign : {B : Type 0} → List ℕ → B → List (List ℕ × B) → List (List ℕ × B)
assign k v [] = (k, v) ∷ []
assign k v ((key, old) ∷ entries) =
    let rest = (key, old) ∷ assign k v entries in if same k key then (key, v) ∷ entries else rest

abbrev pub lookup : {B : Type 0} → List ℕ → List (List ℕ × B) → Option B
lookup k [] = none
lookup k ((key, v) ∷ entries) = let rest = lookup k entries in if same k key then some v else rest

abbrev pub Entries : Type 0 → Type 0
Entries V = List (List ℕ × Option V)

abbrev pub name_of : Key → List ℕ
name_of (at i) = []
name_of (named k) = k

module _ {V : Type 0} where
  unfoldable pub index : Key → Record V → Result ℕ
  index (at (pos i)) r = if ltb i (length r.keys) then ok i else err index_error
  index (at (negsuc i)) r = err index_error
  index (named k) r = or_key_error (place k r.keys)

  abbrev pub item_at : Result ℕ → Record V → Result (Option V)
  item_at (ok i) r = ok (get_elem? r.values i)
  item_at (err e) r = err e

  -- __getitem__, of an index or a name
  unfoldable pub get_item : Key → Record V → Result (Option V)
  unfolding index
  get_item key r = item_at (index key r) r

  abbrev pub or_default : Option V → Option V → Option V
  or_default default none = default
  or_default default (some v) = some v

  abbrev pub get_at : Option ℕ → Option V → Record V → Option V
  get_at none default r = default
  get_at (some i) default r = or_default default (get_elem? r.values i)

  unfoldable pub get : List ℕ → Option V → Record V → Option V
  get k default r = get_at (place k r.keys) default r

  -- Of a key that is not there, the value is None; an index out of bounds raises.
  abbrev pub forgiving : Result ℕ → Record V → Result (Option V)
  forgiving (ok i) r = item_at (index (at (pos i)) r) r
  forgiving (err key_error) r = ok none
  forgiving (err e) r = err e

  abbrev pub values_each : List Key → Record V → Result (List (Option V))
  values_each [] r = ok []
  values_each (key ∷ keys) r = consed (forgiving (index key r) r) (values_each keys r)

  abbrev pub present : List V → List (Option V)
  present [] = []
  present (v ∷ vs) = some v ∷ present vs

  unfoldable pub values : List Key → Record V → Result (List (Option V))
  unfolding index
  values [] r = ok (present r.values)
  values (key ∷ keys) r = values_each (key ∷ keys) r

  -- The name and the value of the field at an index, where the index was found.
  abbrev pub field : Option (List ℕ) → Result (Option V) → Result (List ℕ × Option V)
  field none v = err index_error
  field (some name) (ok v) = ok (name, v)
  field (some name) (err e) = err e

  -- The entry that a key gives. Only a name can be missing.
  abbrev pub entry_at : Key → Result ℕ → Record V → Result (List ℕ × Option V)
  entry_at key (ok i) r = field (get_elem? r.keys i) (item_at (index (at (pos i)) r) r)
  entry_at key (err key_error) r = ok (name_of key, none)
  entry_at key (err e) r = err e

  unfoldable pub items_each : List Key → Record V → Result (Entries V)
  unfolding index
  items_each [] r = ok []
  items_each (key ∷ keys) r = consed (entry_at key (index key r) r) (items_each keys r)

  abbrev pub entries_of : List (List ℕ) → List V → Result (Entries V)
  entries_of names [] = ok []
  entries_of [] (v ∷ vs) = err index_error
  entries_of (name ∷ names) (v ∷ vs) = consed (ok (name, some v)) (entries_of names vs)

  unfoldable pub items : List Key → Record V → Result (Entries V)
  unfolding items_each
  items [] r = entries_of r.keys r.values
  items (key ∷ keys) r = items_each (key ∷ keys) r

  abbrev pub assigned :
      (Entries V → Result (Entries V)) → Entries V → Result (List ℕ × Option V) → Result (Entries V)
  assigned rest d (ok (name, v)) = rest (assign name v d)
  assigned rest d (err e) = err e

  unfoldable pub data_each : List Key → Record V → Entries V → Result (Entries V)
  unfolding index
  data_each [] r d = ok d
  data_each (key ∷ keys) r d = assigned (data_each keys r) d (entry_at key (index key r) r)

  abbrev pub keyed : List ℕ → Result (Option V) → Result (List ℕ × Option V)
  keyed k (ok v) = ok (k, v)
  keyed k (err e) = err e

  -- dict(record)
  unfoldable pub dict_each : List (List ℕ) → Record V → Entries V → Result (Entries V)
  unfolding get_item
  dict_each [] r d = ok d
  dict_each (k ∷ names) r d = assigned (dict_each names r) d (keyed k (get_item (named k) r))

  unfoldable pub data_of : List Key → Record V → Result (Entries V)
  unfolding data_each dict_each
  data_of [] r = dict_each r.keys r []
  data_of (key ∷ keys) r = data_each (key ∷ keys) r []
