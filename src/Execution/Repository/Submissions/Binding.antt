-- ===== src/Execution/Repository/Submissions/Binding.antt =====
-- A submission keeps its broker order (backend/app/transactional_execution_repository.py).
use ai_trading_platform_mobi.Prelude.{
  ◌≡◌, refl, ap, ◌⊎◌, inl, inr, true, false, not, ◌||◌, Option, none, some, List, [], ◌∷◌, arith,
  if◌then◌else◌, Bool-cases, Option-cases, is_empty, ok, err, Ensures, ℤ, Text, text_eq,
  text_eq_iff, lookup, insert, lookup-insert, lookup-insert_self,
}
use ai_trading_platform_mobi.Execution.Repository.{Submission, Database, RepositoryError, Outcome}
use ai_trading_platform_mobi.Execution.Repository.Submissions.{
  insert_submission, register_submission, same_broker_order, mark_submission_submitted,
}

-- The two calls that write submissions.
pub data SubmissionCall : Type 0 where
  registering : Text → Text → ℤ → Text → SubmissionCall
  marking : Text → Text → SubmissionCall

after : Database → Outcome (Submission × Database) → Database
after db (ok r) = r.1
after db (err _) = db

unfoldable pub call : Database → SubmissionCall → Database
unfolding after
call db (SubmissionCall.registering key client account route) =
    after db (register_submission key client account route db)
call db (SubmissionCall.marking key broker_order_id) =
    after db (mark_submission_submitted key broker_order_id db)

unfoldable pub calls : Database → List SubmissionCall → Database
calls db [] = db
calls db (c ∷ cs) = calls (call db c) cs

-- The submission of a key is sent and bound to a broker order.
abbrev pub IsBound : Text → Submission → Database → Type 0
IsBound key s db = (lookup key db.submissions ≡ some s) × (s.submitted ≡ true)

call-IsBound :
    (key : Text) (s : Submission) (db : Database) (c : SubmissionCall)
    → IsBound key s db
    → IsBound key s (call db c)
unfolding call register_submission insert_submission mark_submission_submitted
call-IsBound key s db (SubmissionCall.registering k client account route) h = ground (
  arith,
  text_eq_iff key k,
  lookup-insert k key
      (record {
        client_order_id = client;
        broker_account_id = account;
        broker_route = route;
        submitted = false;
        broker_order_id = none;
      })
      db.submissions,
)
call-IsBound key s db (SubmissionCall.marking k b) h =
    elim (Option-cases (lookup k db.submissions)) [
      | inl absent ↦ ground arith
      | inr (row, found) ↦ ground (
        arith,
        text_eq_iff key k,
        lookup-insert k key (record row { submitted = true; broker_order_id = some b })
            db.submissions,
      )
    ]

-- Once a submission is marked as submitted, its row never changes, whatever is registered or marked
-- later.
pub calls-IsBound :
    (key : Text) (s : Submission) (db : Database) (cs : List SubmissionCall)
    → IsBound key s db
    → IsBound key s (calls db cs)
unfolding calls
calls-IsBound key s db [] h = h
calls-IsBound key s db (c ∷ cs) h = calls-IsBound key s (call db c) cs (call-IsBound key s db c h)

-- What a mark leaves for the marks that follow it.
abbrev pub Settles : Text → Text → Submission × Database → Type 0
Settles key b r =
    (r.0.broker_order_id ≡ some b)
    × (r.0.submitted ≡ true)
    × ((b' : Text)
        → is_empty b' ≡ false
        → mark_submission_submitted key b' r.1
          ≡ (if text_eq b b' then ok r else err RepositoryError.bound_to_other_broker_order))

-- The row after a mark, seen by another mark of the same key.
mark_again :
    (key b b' : Text) (row : Submission) (db : Database)
    → is_empty key ≡ false
    → is_empty b' ≡ false
    → lookup key db.submissions ≡ some row
    → row.submitted ≡ true
    → row.broker_order_id ≡ some b
    → mark_submission_submitted key b' db
      ≡ (if text_eq b b' then ok (row, db) else err RepositoryError.bound_to_other_broker_order)
unfolding mark_submission_submitted
mark_again key b b' row db hk hb found sent bound = ground arith

same_broker_order-eq : (t : Option Text) (b : Text) → same_broker_order t b ≡ true → t ≡ some b
same_broker_order-eq none b h = cc
same_broker_order-eq (some t) b h = ap some ((text_eq_iff t b).0 h)

-- A mark that returns binds the submission to its broker order; from then on a mark with another
-- broker order is refused, and one with the same returns the same row and changes nothing.
pub mark_submission_submitted-Settles :
    (key b : Text) (db : Database) → Ensures (mark_submission_submitted key b db) (Settles key b)
unfolding mark_submission_submitted
mark_submission_submitted-Settles key b db = elim (Bool-cases (is_empty key || is_empty b)) [
  | inl bad ↦ rw bad tt
  | inr good ↦ rw good (elim (Option-cases (lookup key db.submissions)) [
    | inl absent ↦ rw absent tt
    | inr (row, found) ↦ rw found (settled row found good (Bool-cases row.submitted))
  ])
]
  where
    settled :
        (row : Submission)
        → lookup key db.submissions ≡ some row
        → (is_empty key || is_empty b) ≡ false
        → ((row.submitted ≡ true) ⊎ (row.submitted ≡ false))
        → Ensures
            (if not row.submitted
              then ok (
                record row { submitted = true; broker_order_id = some b },
                record db {
                  submissions =
                      insert key
                        (record row { submitted = true; broker_order_id = some b })
                        db.submissions;
                },
              )
              else (if same_broker_order row.broker_order_id b
                  then ok (row, db)
                  else err RepositoryError.bound_to_other_broker_order))
            (Settles key b)
    settled row found good (inr pending) =
        let row' : Submission = record row { submitted = true; broker_order_id = some b } in
        let db' : Database = record db { submissions = insert key row' db.submissions } in
        rw pending (
          refl,
          refl,
          λ b' nonempty.
              mark_again key b b' row' db' (ground arith) nonempty
                (lookup-insert_self key row' db.submissions) refl refl,
        )
    settled row found good (inl sent) =
        elim (Bool-cases (same_broker_order row.broker_order_id b)) [
          | inl e ↦
              simp (sent, e)
                (
                  same_broker_order-eq row.broker_order_id b e,
                  refl,
                  λ b' nonempty.
                      mark_again key b b' row db (ground arith) nonempty found sent
                        (same_broker_order-eq row.broker_order_id b e),
                )
          | inr e ↦ simp (sent, e) tt
        ]
