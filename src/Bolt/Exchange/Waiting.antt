-- ===== src/Bolt/Exchange/Waiting.antt =====
-- Responses are settled in the order of the requests.
use py2neo.Prelude.{
  ℕ, refl, ◌≡◌, ◌∙◌, sym, ap, Bool-cases, true, List, [], ◌∷◌, ◌++◌, arith, append_assoc, All, inl,
  inr, ◌≢◌, suc, length, ◌<◌, zero, ◌||◌,
}
use py2neo.Bolt.Result.{add_records, set_success, set_failure, set_ignored, response_done}
use py2neo.Bolt.Exchange.{
  Incoming, success, records, failure, ignored, other, cut, broken_wire, Exchange, handle,
  wait_loop, fetch, Outcome, wait, is_awaited, after_fetch, ok, fetch_from, out_of_fuel,
  connection_broken, index_error, protocol_error, full,
}

module _ {R : Type 0} where
  abbrev pub IsDone : Exchange R → ℕ → Type 0
  IsDone e i = response_done (e.store i) ≡ true

  -- From `a` to `b`: the responses that left the queue were its first ones, and they are done, as is every
  -- response that was done before.
  pub record Settles (a b : Exchange R) : Type 0 where
    pub gone : List ℕ
    pub order : a.responses ≡ gone ++ b.responses
    pub settled : All (IsDone b) gone
    pub kept : (i : ℕ) → IsDone a i → IsDone b i

  Settles-refl : (a : Exchange R) → Settles a a
  Settles-refl a = record { gone = []; order = refl; settled = tt; kept = λ i d. d }

  All-kept :
      (a b : Exchange R) (l : List ℕ)
      → ((i : ℕ) → IsDone a i → IsDone b i)
      → All (IsDone a) l
      → All (IsDone b) l
  All-kept a b [] k d = tt
  All-kept a b (i ∷ l) k d = (k i d.0, All-kept a b l k d.1)

  All-append :
      (a : Exchange R) (xs ys : List ℕ)
      → All (IsDone a) xs
      → All (IsDone a) ys
      → All (IsDone a) (xs ++ ys)
  All-append a [] ys p q = q
  All-append a (x ∷ xs) ys p q = (p.0, All-append a xs ys p.1 q)

  Settles-trans : (a b c : Exchange R) → Settles a b → Settles b c → Settles a c
  Settles-trans a b c p q = record {
    gone = p.gone ++ q.gone;
    order =
        p.order ∙ (ap (λ x. p.gone ++ x) q.order ∙ sym (append_assoc p.gone q.gone c.responses));
    settled = All-append c p.gone q.gone (All-kept b c p.gone q.kept p.settled) q.settled;
    kept = λ i d. q.kept i (p.kept i d);
  }

  handle-Settles :
      (m : Incoming R) (queue : List ℕ) (e : Exchange R)
      → e.responses ≡ queue
      → Settles e (handle m queue e).1
  unfolding response_done set_success set_failure set_ignored add_records
  handle-Settles cut queue e q = Settles-refl e
  handle-Settles other queue e q = record { gone = []; order = refl; settled = tt; kept = λ i d. d }
  handle-Settles (success more) [] e q = Settles-refl e
  handle-Settles (success more) (i ∷ rest) e q = record {
    gone = i ∷ [];
    order = q;
    settled = (ground arith, tt);
    kept = λ j d. ground (arith, d);
  }
  handle-Settles (records values) [] e q = Settles-refl e
  handle-Settles (records values) (i ∷ rest) e q = record {
    gone = [];
    order = refl;
    settled = tt;
    kept = λ j d. ground (arith, d);
  }
  handle-Settles (failure error) [] e q = Settles-refl e
  handle-Settles (failure error) (i ∷ rest) e q = record {
    gone = i ∷ [];
    order = q;
    settled = (ground arith, tt);
    kept = λ j d. ground (arith, d);
  }
  handle-Settles ignored [] e q = Settles-refl e
  handle-Settles ignored (i ∷ rest) e q = elim (Bool-cases (e.store i).vital) [
    | inl vital ↦ rw vital (record { gone = []; order = refl; settled = tt; kept = λ i d. d })
    | inr plain ↦ rw plain (record {
      gone = i ∷ [];
      order = q;
      settled = (ground arith, tt);
      kept = λ j d. ground (arith, d);
    })
  ]

  -- A fetch takes a message, if it returns; it never says that fuel ran out.
  Fetches : ℕ → Outcome × Exchange R → Type 0
  Fetches n (ok, e) = length e.incoming < n
  Fetches n (out_of_fuel, e) = ⊥
  Fetches n (_, e) = Unit

  handle-Fetches :
      (m : Incoming R) (queue : List ℕ) (n : ℕ) (e : Exchange R)
      → length e.incoming < n
      → Fetches n (handle m queue e)
  unfolding Fetches
  handle-Fetches cut queue n e h = tt
  handle-Fetches other queue n e h = tt
  handle-Fetches (success more) [] n e h = tt
  handle-Fetches (success more) (i ∷ rest) n e h = h
  handle-Fetches (records values) [] n e h = tt
  handle-Fetches (records values) (i ∷ rest) n e h = h
  handle-Fetches (failure error) [] n e h = tt
  handle-Fetches (failure error) (i ∷ rest) n e h = h
  handle-Fetches ignored [] n e h = tt
  handle-Fetches ignored (i ∷ rest) n e h = elim (Bool-cases (e.store i).vital) [
    | inl vital ↦ rw vital tt
    | inr plain ↦ rw plain h
  ]

  fetch_lem : (e : Exchange R) → Settles e (fetch e).1 × Fetches (length e.incoming) (fetch e)
  unfolding fetch Fetches
  fetch_lem e = go e.incoming refl
    where
      go :
          (ms : List (Incoming R))
          → e.incoming ≡ ms
          → Settles e (fetch_from ms e).1 × Fetches (length e.incoming) (fetch_from ms e)
      go [] q = (Settles-refl e, tt)
      go (m ∷ ms) q = (
        Settles-trans e (record e { incoming = ms })
            (handle m e.responses (record e { incoming = ms })).1
            (record { gone = []; order = refl; settled = tt; kept = λ i d. d })
            (handle-Settles m e.responses (record e { incoming = ms }) refl),
        handle-Fetches m e.responses (length e.incoming) (record e { incoming = ms })
            (omega (arith, ap length q)),
      )

  -- How a wait for `i` ends.
  abbrev Waited : ℕ → Exchange R → Outcome × Exchange R → Type 0
  Waited i e r = Settles e r.1 × (r.0 ≡ ok → is_awaited i r.1 ≡ true) × (r.0 ≢ out_of_fuel)

  after_fetch-Waited :
      (i n : ℕ) (e : Exchange R) (again : Exchange R → Outcome × Exchange R)
      (r : Outcome × Exchange R)
      → ((q : Exchange R) → length q.incoming < n → Waited i q (again q))
      → Settles e r.1
      → Fetches n r
      → Waited i e (after_fetch again r)
  unfolding Fetches
  after_fetch-Waited i n e again (ok, q) ih s f =
      let (t, a, x) = ih q f in (Settles-trans e q (again q).1 s t, a, x)
  after_fetch-Waited i n e again (connection_broken, q) ih s f = (s, λ h. cc, λ h. cc)
  after_fetch-Waited i n e again (broken_wire, q) ih s f = (s, λ h. cc, λ h. cc)
  after_fetch-Waited i n e again (index_error, q) ih s f = (s, λ h. cc, λ h. cc)
  after_fetch-Waited i n e again (protocol_error, q) ih s f = (s, λ h. cc, λ h. cc)
  after_fetch-Waited i n e again (out_of_fuel, q) ih s f = absurd f

  wait_loop-Waited :
      (fuel i : ℕ) (e : Exchange R) → length e.incoming < fuel → Waited i e (wait_loop fuel i e)
  unfolding wait_loop
  wait_loop-Waited zero i e h = absurd (omega arith)
  wait_loop-Waited (suc fuel) i e h = elim (Bool-cases (is_awaited i e)) [
    | inl there ↦ rw there (Settles-refl e, λ _. there, λ x. cc)
    | inr awaiting ↦ rw awaiting (
        let (s, f) = fetch_lem e in
        after_fetch-Waited i (length e.incoming) e (wait_loop fuel i) (fetch e)
          (λ q k. wait_loop-Waited fuel i q (omega arith)) s f)
  ]

  -- `_wait` ends. However it ends, the responses that left the queue were its first ones, in order, and are
  -- done, and none that was done is taken back.
  pub wait-Settles :
      (i : ℕ) (e : Exchange R) → Settles e (wait i e).1 × ((wait i e).0 ≢ out_of_fuel)
  unfolding wait
  wait-Settles i e =
      let (s, a, x) = wait_loop-Waited (suc (length e.incoming)) i e (omega arith) in (s, x)

  -- Where `_wait` returns, the response that was waited for is done, or holds as many records as it has
  -- room for.
  wait-eq-ok :
      (i : ℕ) (e : Exchange R)
      → (wait i e).0 ≡ ok
      → (full ((wait i e).1.store i) || response_done ((wait i e).1.store i)) ≡ true
  unfolding wait
  wait-eq-ok i e h =
      let (s, a, x) = wait_loop-Waited (suc (length e.incoming)) i e (omega arith) in a h
