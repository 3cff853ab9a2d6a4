-- ===== src/Execution/Repository/Outbox/Lease.antt =====
-- Leases on outbox rows (backend/app/transactional_execution_repository.py).
use ai_trading_platform_mobi.Prelude.{
  ℕ, zero, suc, ◌+◌, ◌-◌, ◌≤◌, ◌≡◌, refl, inl, inr, true, false, ◌&&◌, ◌||◌, Option, none, some,
  List, [], ◌∷◌, arith, ltb, ◌==◌, Bool-cases, length, raise_if, Ensures, Text, Ensures-then, subst,
  All, All-mono,
}
use ai_trading_platform_mobi.Execution.Repository.{OutboxRow, Database, RepositoryError}
use ai_trading_platform_mobi.Execution.Repository.Outbox.{
  is_free, claim_rows, ClaimedRow, claimed_rows, claim_outbox,
}

-- The row is not published, and nobody holds a lease on it at this time.
abbrev pub IsFree : ℕ → OutboxRow → Type 0
IsFree now r =
    (r.published ≡ false)
    × ((token : Text) (expires : ℕ) → r.claim ≡ some (token, expires) → expires ≤ now)

is_free-IsFree : (now : ℕ) (r : OutboxRow) → is_free now r ≡ true → IsFree now r
unfolding is_free
is_free-IsFree now r h = (ground arith, λ token expires e. ground arith)

-- The row at a place of the table
abbrev pub row_at : ℕ → List OutboxRow → Option OutboxRow
row_at i [] = none
row_at zero (r ∷ rows) = some r
row_at (suc i) (r ∷ rows) = row_at i rows

-- A claimed row is free before the claim and stands at its id, with the token, and after the claim its
-- row has the lease of the token.
pub record IsClaimed (now expires : ℕ) (token : Text) (before after : List OutboxRow)
    (c : ClaimedRow) : Type 0 where
  pub free_before : IsFree now c.row
  pub token_is : c.claim_token ≡ token
  pub before_is : row_at c.id before ≡ some c.row
  pub after_is : row_at c.id after ≡ some (record c.row { claim = some (token, expires) })

-- The same, where the table starts at the id `start`
IsClaimedFrom : ℕ → ℕ → ℕ → Text → List OutboxRow → List OutboxRow → ClaimedRow → Type 0
IsClaimedFrom start now expires token before after c =
    (k : ℕ) × (c.id ≡ start + k)
    × IsFree now c.row
    × (c.claim_token ≡ token)
    × (row_at k before ≡ some c.row)
    × (row_at k after ≡ some (record c.row { claim = some (token, expires) }))

later :
    (start now expires : ℕ) (token : Text) (r r' : OutboxRow) (before after : List OutboxRow)
    (c : ClaimedRow)
    → IsClaimedFrom (suc start) now expires token before after c
    → IsClaimedFrom start now expires token (r ∷ before) (r' ∷ after) c
unfolding IsClaimedFrom
later start now expires token r r' before after c (k, e, free, t, g, h) =
    (suc k, omega (arith, e), free, t, g, h)

claimed_rows-IsClaimed :
    (start limit now expires : ℕ) (token : Text) (rows : List OutboxRow)
    → All
        (IsClaimedFrom start now expires token rows (claim_rows limit now token expires rows))
        (claimed_rows start limit now token rows)
unfolding claimed_rows claim_rows IsClaimedFrom
claimed_rows-IsClaimed start limit now expires token [] = tt
claimed_rows-IsClaimed start limit now expires token (r ∷ rows) =
    elim (Bool-cases (is_free now r && ltb 0 limit)) [
      | inl e ↦ rw e (
        (0, omega arith, is_free-IsFree now r (ground arith), refl, refl, refl),
        All-mono (claimed_rows (suc start) (limit - 1) now token rows)
            (λ c h.
              later start now expires token r (record r { claim = some (token, expires) }) rows
                (claim_rows (limit - 1) now token expires rows) c h)
            (claimed_rows-IsClaimed (suc start) (limit - 1) now expires token rows),
      )
      | inr e ↦ rw e (
          All-mono (claimed_rows (suc start) limit now token rows)
            (λ c h.
              later start now expires token r r rows (claim_rows limit now token expires rows) c h)
            (claimed_rows-IsClaimed (suc start) limit now expires token rows))
    ]

at_its_id :
    (now expires : ℕ) (token : Text) (before after : List OutboxRow) (c : ClaimedRow)
    → IsClaimedFrom 0 now expires token before after c
    → IsClaimed now expires token before after c
unfolding IsClaimedFrom
at_its_id now expires token before after c (k, e, free, t, g, h) =
    let same : k ≡ c.id = omega (arith, e) in
    record {
      free_before = free;
      token_is = t;
      before_is = subst (λ i. row_at i before ≡ some c.row) same g;
      after_is =
          subst (λ i. row_at i after ≡ some (record c.row { claim = some (token, expires) })) same
            h;
    }

claimed_rows-length :
    (start limit now : ℕ) (token : Text) (rows : List OutboxRow)
    → length (claimed_rows start limit now token rows) ≤ limit
unfolding claimed_rows
claimed_rows-length start limit now token [] = omega arith
claimed_rows-length start limit now token (r ∷ rows) = ground (
  arith,
  claimed_rows-length (suc start) limit now token rows,
  claimed_rows-length (suc start) (limit - 1) now token rows,
)

-- A claim returns at most `limit` rows, with its token. Each stands in the table at the id that is
-- returned, is not published, and has no lease that still runs; after the claim it has a lease of the
-- token until the given time later.
pub claim_outbox-IsFree :
    (limit lease now : ℕ) (token : Text) (db : Database)
    → Ensures (claim_outbox limit lease now token db) (λ r.
      (length r.0 ≤ limit) × All (IsClaimed now (now + lease) token db.outbox r.1.outbox) r.0)
unfolding claim_outbox
claim_outbox-IsFree limit lease now token db =
    Ensures-then _ (raise_if (limit == 0 || lease == 0) RepositoryError.bad_claim) _ λ _. (
      claimed_rows-length 0 limit now token db.outbox,
      All-mono (claimed_rows 0 limit now token db.outbox)
          (λ c h.
            at_its_id now (now + lease) token db.outbox
              (claim_rows limit now token (now + lease) db.outbox) c h)
          (claimed_rows-IsClaimed 0 limit now (now + lease) token db.outbox),
    )
