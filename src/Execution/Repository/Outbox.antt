-- ===== src/Execution/Repository/Outbox.antt =====
-- The outbox of backend/app/transactional_execution_repository.py: rows are claimed under a lease
-- and published by the holder of the claim. The id of a row is its place in the table, from 0.
pub mod Lease
pub mod Once
use ai_trading_platform_mobi.Prelude.{
  ℕ, zero, suc, ◌+◌, ◌-◌, ◌/◌, ◌<◌, ap, Bool, true, false, not, ◌&&◌, ◌||◌, none, some, List, [],
  ◌∷◌, ltb, leb, ◌==◌, if◌then◌else◌, is_empty, all, keep, ok, err, ◌>>=◌, ◌>>◌, raise_if, pos,
  Text, text_eq, take,
}
use ai_trading_platform_mobi.Execution.Repository.{OutboxRow, Database, RepositoryError, Outcome}

-- `published = 0 AND (claim_token IS NULL OR claim_expires_at <= now)`
unfoldable pub is_free : ℕ → OutboxRow → Bool
is_free now r =
    not r.published && (elim r.claim [ none ↦ true | some (token, expires) ↦ leb expires now ])

-- The first `limit` free rows are claimed; `limit` counts down.
unfoldable pub claim_rows : ℕ → ℕ → Text → ℕ → List OutboxRow → List OutboxRow
claim_rows limit now token expires [] = []
claim_rows limit now token expires (r ∷ rows) =
    if is_free now r && ltb 0 limit
    then record r { claim = some (token, expires) } ∷ claim_rows (limit - 1) now token expires rows
    else r ∷ claim_rows limit now token expires rows

-- What a claim returns of a row: its id, its event and the token of the claim
pub record ClaimedRow : Type 0 where
  pub id : ℕ
  pub row : OutboxRow
  pub claim_token : Text

-- The rows that a claim returns, where the table starts at the id that is given.
unfoldable pub claimed_rows : ℕ → ℕ → ℕ → Text → List OutboxRow → List ClaimedRow
claimed_rows id limit now token [] = []
claimed_rows id limit now token (r ∷ rows) =
    if is_free now r && ltb 0 limit
    then record { id = id; row = r; claim_token = token }
      ∷ claimed_rows (suc id) (limit - 1) now token rows
    else claimed_rows (suc id) limit now token rows

-- `claim_outbox`, with the time and the token that the call draws
unfoldable pub claim_outbox : ℕ → ℕ → ℕ → Text → Database → Outcome (List ClaimedRow × Database)
claim_outbox limit lease now token db = do
  raise_if (limit == 0 || lease == 0) RepositoryError.bad_claim
  ok (
    claimed_rows 0 limit now token db.outbox,
    record db { outbox = claim_rows limit now token (now + lease) db.outbox },
  )

-- `pending_outbox` at a time
unfoldable pub pending_outbox : ℕ → ℕ → Database → List OutboxRow
pending_outbox limit now db = take limit (keep (is_free now) db.outbox)

-- `published = 0 AND claim_token = ?`
unfoldable pub is_held : Text → OutboxRow → Bool
is_held token r =
    not r.published && (elim r.claim [ none ↦ false | some (t, expires) ↦ text_eq t token ])

unfoldable pub publish_row : ℕ → Text → List OutboxRow → Outcome (List OutboxRow)
publish_row i token [] = err RepositoryError.claim_not_owned
publish_row zero token (r ∷ rows) =
    if is_held token r
    then ok (record r { published = true; claim = none } ∷ rows)
    else err RepositoryError.claim_not_owned
publish_row (suc i) token (r ∷ rows) = publish_row i token rows >>= λ rows'. ok (r ∷ rows')

-- `mark_published`
unfoldable pub mark_published : ℕ → Text → Database → Outcome Database
mark_published i token db = do
  raise_if (is_empty token) RepositoryError.bad_claim
  rows ← publish_row i token db.outbox
  ok (record db { outbox = rows })
