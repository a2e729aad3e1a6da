-- ===== src/Client/Pool/Tests.antt =====
-- Runs of a pool whose owner does nothing about a broken connection, and the theorems about pools there.
use py2neo.Prelude.{List, ℕ, ◌≡◌, ◌≢◌, ◌⊎◌, ◌≤◌, refl, [], ◌∷◌, false, true, arith, none, some, ◌<◌}
use py2neo.Client.Pool.{
  Pool, Outcome, opens, acquire, release, close, ok, err, raised, size, connection_limit,
  out_of_fuel, Fault, unusable,
}
use py2neo.Client.Pool.Ownership.{IsTame, OwnedOnce, count}
use py2neo.Client.Pool.Shrinking.{IsShrinking, Shrinks-refl}
use py2neo.Client.Pool.Calls.{acquires, releases, prunes, run, run-OwnedOnce, Call, passes}
use py2neo.Client.Pool.Limits.{size-run}
use py2neo.Client.Pool.Acquiring.{acquire-ends, acquire-eq-ok}
use py2neo.Client.Pool.Quarantine.{release_raises}
use py2neo.Client.Pool.Closing.{close-ok}

abbrev no_callback : Pool → Pool
no_callback p = p

no_callback-IsTame : IsTame no_callback
no_callback-IsTame = record { no_more = λ p x. omega arith; no_new = λ p. refl }

no_callback-IsShrinking : IsShrinking no_callback
no_callback-IsShrinking = Shrinks-refl

abbrev breaking : Outcome
breaking = record { raises = false; breaks = true; closes = false }

abbrev raising : Outcome
raising = record { raises = true; breaks = false; closes = false }

-- Room for two connections, none open.
abbrev empty_pool : Pool
empty_pool = record {
  max_size = some 2;
  max_age = some 60;
  in_use_list = [];
  quarantine = [];
  free_list = [];
  supports_multi = false;
  cxs = λ x. record { broken = false; closed = false; opened = 0; tag = none };
  next_cx = 0;
  now = 5;
  outcomes = [];
  dials = opens true ∷ opens true ∷ opens true ∷ [];
}

-- Connection 0 in use, connection 1 free.
abbrev half_used : Pool
half_used = record empty_pool { in_use_list = 0 ∷ []; free_list = 1 ∷ []; next_cx = 2 }

-- The coming `reset` raises.
abbrev troubled : Pool
troubled = record half_used { outcomes = raising ∷ [] }

abbrev day_of_calls : List Call
day_of_calls =
    acquires false ∷ acquires false ∷ passes 9 ∷ acquires false ∷ releases 1 ∷ prunes ∷ []

-- The limit is two, and one connection is in use already.
full_is_refused :
    (acquire no_callback false (record half_used { in_use_list = 0 ∷ 1 ∷ []; free_list = [] })).0
    ≡ err connection_limit
unfolding acquire
full_is_refused = refl

-- A free connection that breaks during its reset is passed over, and another one is opened.
passed_over : (acquire no_callback false (record half_used { outcomes = breaking ∷ [] })).0 ≡ ok 2
unfolding acquire
passed_over = refl

half_used-OwnedOnce : OwnedOnce half_used
half_used-OwnedOnce x = ground arith

run-OwnedOnce_example : OwnedOnce (run no_callback day_of_calls empty_pool)
run-OwnedOnce_example =
    run-OwnedOnce no_callback day_of_calls empty_pool no_callback-IsTame
      (λ x. (omega arith, λ _. refl))

size-run_example : size (run no_callback day_of_calls empty_pool) ≤ 2
size-run_example =
    size-run no_callback 2 day_of_calls empty_pool no_callback-IsShrinking
      (tt, (tt, (tt, (tt, (tt, (tt, tt)))))) refl (omega arith)

acquire-ends_example :
    ((cx : ℕ) × ((acquire no_callback false half_used).0 ≡ ok cx))
    ⊎ ((e : Fault) × ((acquire no_callback false half_used).0 ≡ err e) × (e ≢ out_of_fuel))
acquire-ends_example = acquire-ends no_callback false half_used no_callback-IsShrinking

acquired_free : (acquire no_callback false half_used).0 ≡ ok 1
unfolding acquire
acquired_free = refl

acquire-eq-ok_example :
    (unusable 1 (acquire no_callback false half_used).1 ≡ false)
    × (count 1 (acquire no_callback false half_used).1.in_use_list ≡ 1)
    × (count 1 (acquire no_callback false half_used).1.free_list ≡ 0)
    × (count 1 (acquire no_callback false half_used).1.quarantine ≡ 0)
acquire-eq-ok_example =
    acquire-eq-ok no_callback false half_used 1 no_callback-IsTame half_used-OwnedOnce acquired_free

release_raises_example :
    ((release no_callback 0 troubled).0 ≡ err raised)
    × ((release no_callback 0 troubled).1.quarantine ≡ 0 ∷ [])
    × (size (release no_callback 0 troubled).1 < size troubled)
    × (release no_callback 0 (release no_callback 0 troubled).1
        ≡ (ok tt, (release no_callback 0 troubled).1))
release_raises_example =
    release_raises no_callback 0 troubled (λ q. refl) no_callback-IsShrinking refl refl refl refl
      refl refl refl

closes_quietly : (close no_callback half_used).0 ≡ ok tt
unfolding close
closes_quietly = refl

close-ok_example :
    ((run no_callback (acquires true ∷ prunes ∷ []) (close no_callback half_used).1).in_use_list
      ≡ [])
    × ((run no_callback (acquires true ∷ prunes ∷ []) (close no_callback half_used).1).free_list
        ≡ [])
    × (acquire no_callback true
          (run no_callback (acquires true ∷ prunes ∷ []) (close no_callback half_used).1)
        ≡ (
          err connection_limit,
          run no_callback (acquires true ∷ prunes ∷ []) (close no_callback half_used).1,
        ))
close-ok_example =
    close-ok no_callback half_used (acquires true ∷ prunes ∷ []) true no_callback-IsShrinking
      (tt, (tt, tt)) closes_quietly
