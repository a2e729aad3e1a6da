-- ===== src/Errors.antt =====
-- errors.py: the status codes of Neo4j, and which errors are worth another attempt. A text is the list of
-- its code points.
pub mod Codes
mod Tests
use Prim.Native.Char.{code}
use Prim.Native.String.{String}
use py2neo.Prelude.{
  ℕ, Bool, true, false, ◌&&◌, ◌==◌, if◌then◌else◌, List, [], ◌∷◌, ◌++◌, Option, none, some,
}

abbrev pub codes : String → List ℕ
codes String.[] = []
codes (String.◌∷◌ c s) = code c ∷ codes s

abbrev pub same : List ℕ → List ℕ → Bool
same [] [] = true
same [] (y ∷ ys) = false
same (x ∷ xs) [] = false
same (x ∷ xs) (y ∷ ys) = x == y && same xs ys

abbrev pub dot : ℕ
dot = 46

-- The first part grows by a character.
abbrev pub grow : ℕ → List (List ℕ) → List (List ℕ)
grow c [] = (c ∷ []) ∷ []
grow c (part ∷ parts) = (c ∷ part) ∷ parts

-- code.split(".")
abbrev pub split : List ℕ → List (List ℕ)
split [] = [] ∷ []
split (c ∷ cs) = let rest = split cs in if c == dot then [] ∷ rest else grow c rest

-- Classification, category and title.
pub record Status : Type 0 where
  pub classification : List ℕ
  pub category : List ℕ
  pub title : List ℕ

abbrev pub four_parts : List (List ℕ) → Option Status
four_parts (neo ∷ classification ∷ category ∷ title ∷ []) =
    if same neo (codes "Neo")
    then some (record { classification = classification; category = category; title = title })
    else none
four_parts _ = none

-- There is no value where the source raises `ValueError`, as it does when the code is None.
unfoldable pub split_code : Option (List ℕ) → Option Status
split_code none = none
split_code (some text) = four_parts (split text)

-- The subclasses of `Neo4jError`, and the class itself.
pub data ErrorClass : Type 0 where
  client_error database_error transient_error neo4j_error : ErrorClass

pub record Neo4jError : Type 0 where
  pub error_class : ErrorClass
  pub status : Status

-- Neo4jError.__new__
abbrev pub class_of : List ℕ → ErrorClass
class_of classification =
    if same classification (codes "ClientError")
    then client_error
    else if same classification (codes "DatabaseError")
    then database_error
    else if same classification (codes "TransientError")
    then transient_error
    else neo4j_error

abbrev pub error_of : Option Status → Option Neo4jError
error_of none = none
error_of (some status) =
    some (record { error_class = class_of status.classification; status = status })

-- Neo4jError.hydrate
unfoldable pub hydrate : Option (List ℕ) → Option Neo4jError
unfolding split_code
hydrate text = error_of (split_code text)

abbrev pub not_a_leader : Status → Bool
not_a_leader status =
    same status.category (codes "Cluster") && same status.title (codes "NotALeader")

abbrev pub retry_in : ErrorClass → Status → Bool
retry_in client_error status = not_a_leader status
retry_in transient_error status = true
retry_in _ status = false

unfoldable pub should_retry : Neo4jError → Bool
should_retry e = retry_in e.error_class e.status

abbrev pub invalidate_in : ErrorClass → Status → Bool
invalidate_in client_error status = not_a_leader status
invalidate_in _ status = false

unfoldable pub should_invalidate_routing_table : Neo4jError → Bool
should_invalidate_routing_table e = invalidate_in e.error_class e.status
