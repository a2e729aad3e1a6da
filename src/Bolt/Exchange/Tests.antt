-- ===== src/Bolt/Exchange/Tests.antt =====
-- Two requests whose responses arrive one after the other, and the theorem about waiting there.
use py2neo.Prelude.{ℕ, refl, ◌≡◌, ◌≢◌, [], ◌∷◌, some, none, false}
use py2neo.Bolt.Result.{new_response, full, response_done, add_records, set_success}
use py2neo.Bolt.Exchange.{Exchange, success, records, ignored, ok, wait, out_of_fuel}
use py2neo.Bolt.Exchange.Waiting.{Settles, wait-Settles}

abbrev two_requests : Exchange ℕ
two_requests = record {
  responses = 1 ∷ 2 ∷ [];
  store = λ i. new_response none false;
  wire_closed = false;
  incoming = success none ∷ records (5 ∷ []) ∷ success (some false) ∷ ignored ∷ [];
}

-- Waiting for the second response settles the first as well, and leaves the last message unread.
both_settled : (wait 2 two_requests).1.responses ≡ []
unfolding wait full response_done add_records set_success
both_settled = refl

records_sorted : ((wait 2 two_requests).1.store 2).records ≡ 5 ∷ []
unfolding wait full response_done add_records set_success
records_sorted = refl

second_is_ok : (wait 2 two_requests).0 ≡ ok
unfolding wait full response_done add_records set_success
second_is_ok = refl

wait-Settles_example :
    Settles two_requests (wait 2 two_requests).1 × ((wait 2 two_requests).0 ≢ out_of_fuel)
wait-Settles_example = wait-Settles 2 two_requests
