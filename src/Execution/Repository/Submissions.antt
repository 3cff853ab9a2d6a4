-- ===== src/Execution/Repository/Submissions.antt =====
-- Submission records in backend/app/transactional_execution_repository.py. `PENDING` and
-- `SUBMITTED` are the two values of the field `submitted`.
pub mod Binding
use ai_trading_platform_mobi.Prelude.{
  ℕ, ◌-◌, ◌/◌, ap, Bool, true, false, not, ◌&&◌, ◌||◌, Option, none, some, List, leb, if◌then◌else◌,
  is_empty, keep, ok, err, ◌>>=◌, ◌>>◌, raise_if, ℤ, pos, leb_ℤ, eq_ℤ, Text, text_eq, lookup,
  contains, insert, take,
}
use ai_trading_platform_mobi.Execution.Repository.{Submission, Database, RepositoryError, Outcome}

abbrev pub scope_fits : Submission → Text → ℤ → Text → Bool
scope_fits s client account route =
    text_eq s.client_order_id client
    && eq_ℤ s.broker_account_id account
    && text_eq s.broker_route route

-- `INSERT OR IGNORE` of a pending submission
unfoldable pub insert_submission : Text → Submission → Database → Database
insert_submission key s db =
    if contains key db.submissions
    then db
    else record db { submissions = insert key s db.submissions }

-- `register_submission`
unfoldable pub register_submission :
    Text → Text → ℤ → Text → Database → Outcome (Submission × Database)
register_submission key client account route db = do
  raise_if (is_empty key || is_empty client || leb_ℤ account (pos 0) || is_empty route)
      RepositoryError.missing_identity
  let pending : Submission = record {
    client_order_id = client;
    broker_account_id = account;
    broker_route = route;
    submitted = false;
    broker_order_id = none;
  }
  let db' = insert_submission key pending db
  elim (lookup key db'.submissions) [
    | none ↦ err RepositoryError.unknown_submission
    | some row ↦
        if scope_fits row client account route
        then ok (row, db')
        else err RepositoryError.other_order_scope
  ]

abbrev pub same_broker_order : Option Text → Text → Bool
same_broker_order none broker_order_id = false
same_broker_order (some t) broker_order_id = text_eq t broker_order_id

-- `mark_submission_submitted`: the update finds a pending row, or the row that is there must name
-- the same broker order.
unfoldable pub mark_submission_submitted : Text → Text → Database → Outcome (Submission × Database)
mark_submission_submitted key broker_order_id db = do
  raise_if (is_empty key || is_empty broker_order_id) RepositoryError.missing_identity
  elim (lookup key db.submissions) [
    | none ↦ err RepositoryError.unknown_submission
    | some row ↦
        if not row.submitted
        then (let row' = record row { submitted = true; broker_order_id = some broker_order_id } in
            ok (row', record db { submissions = insert key row' db.submissions }))
        else (if same_broker_order row.broker_order_id broker_order_id
            then ok (row, db)
            else err RepositoryError.bound_to_other_broker_order)
  ]

-- `get_submission`
unfoldable pub get_submission : Text → Database → Option Submission
get_submission key db = lookup key db.submissions

-- `pending_submissions`, in the order in which they were made
unfoldable pub pending_submissions : ℕ → Database → List (Text × Submission)
pending_submissions limit db = take limit (keep (λ r. not r.1.submitted) db.submissions)
