-- ===== src/Bolt/Result/Auditing.antt =====
-- The audit of a result: the first response that failed.
use py2neo.Prelude.{
  ℕ, zero, suc, refl, ◌≡◌, ◌∙◌, sym, ap, List, [], ◌∷◌, ◌++◌, drop, Option, none, some,
}
use py2neo.Bolt.Result.{
  BoltResponse, BoltResult, audit, audit_each, after_audit, raise_failure, audit_response,
  set_ignored,
}
use py2neo.Bolt.Result.Records.{records_of, remaining}

abbrev first_of : Option ℕ → Option ℕ → Option ℕ
first_of none o = o
first_of (some e) o = some e

module _ {R : Type 0} where
  -- The error of the first response that has one.
  abbrev pub first_failure : List (BoltResponse R) → Option ℕ
  first_failure [] = none
  first_failure (rsp ∷ rest) = first_of rsp.failure (first_failure rest)

  -- What an audit of `items` gives: the first error, which would be found again, and the same records.
  record Audited (items : List (BoltResponse R)) (o : Option ℕ × List (BoltResponse R))
      : Type 0 where
    raised : o.0 ≡ first_failure items
    again : first_failure o.1 ≡ first_failure items
    same : (n : ℕ) → records_of (drop n o.1) ≡ records_of (drop n items)

  under :
      (rsp new : BoltResponse R) (xs ys : List (BoltResponse R))
      → new.records ≡ rsp.records
      → ((n : ℕ) → records_of (drop n xs) ≡ records_of (drop n ys))
      → (n : ℕ) → records_of (drop n (new ∷ xs)) ≡ records_of (drop n (rsp ∷ ys))
  under rsp new xs ys e h zero = rw e (ap (λ x. rsp.records ++ x) (h 0))
  under rsp new xs ys e h (suc n) = h n

  after_audit-Audited :
      (rsp : BoltResponse R) (rest : List (BoltResponse R)) (f : Option ℕ)
      → rsp.failure ≡ f
      → Audited rest (audit_each rest)
      → Audited (rsp ∷ rest) (after_audit rest (audit_each rest) (raise_failure f rsp))
  unfolding set_ignored
  after_audit-Audited rsp rest none e a = record {
    raised = rw e a.raised;
    again = rw e a.again;
    same = under rsp rsp (audit_each rest).1 rest refl a.same;
  }
  after_audit-Audited rsp rest (some error) e a = record {
    raised = rw e refl;
    again = refl;
    same = under rsp (set_ignored rsp) rest rest refl (λ n. refl);
  }

  audit_each-Audited : (items : List (BoltResponse R)) → Audited items (audit_each items)
  unfolding audit_each audit_response
  audit_each-Audited [] = record { raised = refl; again = refl; same = λ n. refl }
  audit_each-Audited (rsp ∷ rest) =
      after_audit-Audited rsp rest rsp.failure refl (audit_each-Audited rest)

  -- An audit raises the error of the first response that has one, and nothing where none has; a second
  -- audit raises the same again, and the records that remain are untouched.
  pub audit-first_failure :
      (res : BoltResult R)
      → ((audit res).0 ≡ first_failure res.items)
        × ((audit (audit res).1).0 ≡ (audit res).0)
        × (remaining (audit res).1 ≡ remaining res)
  unfolding audit
  audit-first_failure res =
      let a = audit_each-Audited res.items in
      let b = audit_each-Audited (audit_each res.items).1 in
      (a.raised, b.raised ∙ (a.again ∙ sym a.raised), a.same res.last_taken)
