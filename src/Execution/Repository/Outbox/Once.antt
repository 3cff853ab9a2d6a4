-- ===== src/Execution/Repository/Outbox/Once.antt =====
-- A row of the outbox is published once (backend/app/transactional_execution_repository.py).
use ai_trading_platform_mobi.Prelude.{
  ℕ, zero, suc, ◌+◌, ◌-◌, ◌≡◌, refl, inl, inr, Bool, true, false, ◌&&◌, ◌||◌, none, some, List, [],
  ◌∷◌, arith, ltb, ◌==◌, Bool-cases, is_empty, ok, err, ◌>>=◌, raise_if, is_ok, Ensures, Text,
  Ensures-bind, Ensures-then, Ensures-always,
}
use ai_trading_platform_mobi.Execution.Repository.{OutboxRow, Database, RepositoryError, Outcome}
use ai_trading_platform_mobi.Execution.Repository.Outbox.{
  is_free, claim_rows, claim_outbox, is_held, publish_row, mark_published,
}
use ai_trading_platform_mobi.Execution.Repository.Outbox.Lease.{row_at}

-- The calls that change rows of the outbox
pub data Call : Type 0 where
  claiming : ℕ → ℕ → ℕ → Text → Call
  publishing : ℕ → Text → Call

abbrev kept : {A : Type 0} → (A → Database) → Database → Outcome A → Database
kept f db (ok a) = f a
kept f db (err _) = db

unfoldable pub execute : Database → Call → Database
execute db (Call.claiming limit lease now token) =
    kept (λ x. x.1) db (claim_outbox limit lease now token db)
execute db (Call.publishing i token) = kept (λ x. x) db (mark_published i token db)

unfoldable pub run : Database → List Call → Database
run db [] = db
run db (c ∷ cs) = run (execute db c) cs

abbrev IsPublishedAt : ℕ → List OutboxRow → Type 0
IsPublishedAt i rows = (r : OutboxRow) × (row_at i rows ≡ some r) × (r.published ≡ true)

claim_rows-IsPublishedAt :
    (limit now : ℕ) (token : Text) (expires i : ℕ) (rows : List OutboxRow)
    → IsPublishedAt i rows
    → IsPublishedAt i (claim_rows limit now token expires rows)
unfolding claim_rows is_free
claim_rows-IsPublishedAt limit now token expires i [] h = h
claim_rows-IsPublishedAt limit now token expires zero (r ∷ rows) (q, at, done) =
    elim (Bool-cases (is_free now r && ltb 0 limit)) [
      | inl e ↦ absurd (ground (arith, e, at, done))
      | inr e ↦ rw e (q, at, done)
    ]
claim_rows-IsPublishedAt limit now token expires (suc i) (r ∷ rows) h =
    elim (Bool-cases (is_free now r && ltb 0 limit)) [
      | inl e ↦ rw e (claim_rows-IsPublishedAt (limit - 1) now token expires i rows h)
      | inr e ↦ rw e (claim_rows-IsPublishedAt limit now token expires i rows h)
    ]

-- A row that is published is not published again.
publish_row_refused :
    (i : ℕ) (token : Text) (rows : List OutboxRow)
    → IsPublishedAt i rows
    → is_ok (publish_row i token rows) ≡ false
unfolding publish_row is_held
publish_row_refused i token [] h = refl
publish_row_refused zero token (r ∷ rows) (q, at, done) = ground (arith, at, done)
publish_row_refused (suc i) token (r ∷ rows) h =
    passed (publish_row i token rows) (publish_row_refused i token rows h)
  where
    passed :
        (m : Outcome (List OutboxRow))
        → is_ok m ≡ false
        → is_ok {A = List OutboxRow} (m >>= λ rows'. ok (r ∷ rows')) ≡ false
    passed (ok a) k = cc
    passed (err e) k = refl

publish_row-IsPublishedAt :
    (i : ℕ) (token : Text) (rows : List OutboxRow)
    → Ensures (publish_row i token rows) (IsPublishedAt i)
unfolding publish_row
publish_row-IsPublishedAt i token [] = tt
publish_row-IsPublishedAt zero token (r ∷ rows) = elim (Bool-cases (is_held token r)) [
  | inl e ↦ rw e (record r { published = true; claim = none }, refl, refl)
  | inr e ↦ rw e tt
]
publish_row-IsPublishedAt (suc i) token (r ∷ rows) =
    Ensures-bind (IsPublishedAt (suc i)) (publish_row i token rows) _
      (publish_row-IsPublishedAt i token rows) (λ rows' h. h)

-- A publication of any row keeps what is published.
publish_row_keeps :
    (i j : ℕ) (token : Text) (rows : List OutboxRow)
    → IsPublishedAt i rows
    → Ensures (publish_row j token rows) (IsPublishedAt i)
unfolding publish_row
publish_row_keeps i j token [] h = tt
publish_row_keeps zero zero token (r ∷ rows) h = elim (Bool-cases (is_held token r)) [
  | inl e ↦ rw e (record r { published = true; claim = none }, refl, refl)
  | inr e ↦ rw e tt
]
publish_row_keeps (suc i) zero token (r ∷ rows) h = elim (Bool-cases (is_held token r)) [
  | inl e ↦ rw e h
  | inr e ↦ rw e tt
]
publish_row_keeps zero (suc j) token (r ∷ rows) h =
    Ensures-bind (IsPublishedAt zero) (publish_row j token rows) _
      (Ensures-always (λ _. Unit {0}) (publish_row j token rows) (λ _. tt)) (λ rows' _. h)
publish_row_keeps (suc i) (suc j) token (r ∷ rows) h =
    Ensures-bind (IsPublishedAt (suc i)) (publish_row j token rows) _
      (publish_row_keeps i j token rows h) (λ rows' k. k)

kept_outbox :
    {A : Type 0} (P : Database → Type 0) (f : A → Database) (db : Database) (m : Outcome A)
    → P db
    → Ensures m (λ a. P (f a))
    → P (kept f db m)
kept_outbox P f db (ok a) h k = k
kept_outbox P f db (err _) h k = h

run-IsPublishedAt :
    (i : ℕ) (db : Database) (cs : List Call)
    → IsPublishedAt i db.outbox
    → IsPublishedAt i (run db cs).outbox
unfolding run execute claim_outbox mark_published
run-IsPublishedAt i db [] h = h
run-IsPublishedAt i db (Call.claiming limit lease now token ∷ cs) h =
    run-IsPublishedAt i (execute db (Call.claiming limit lease now token)) cs (
      kept_outbox (λ d. IsPublishedAt i d.outbox) _ db (claim_outbox limit lease now token db) h
        (Ensures-then _ (raise_if (limit == 0 || lease == 0) RepositoryError.bad_claim) _
          (λ _. claim_rows-IsPublishedAt limit now token (now + lease) i db.outbox h)))
run-IsPublishedAt i db (Call.publishing j token ∷ cs) h =
    run-IsPublishedAt i (execute db (Call.publishing j token)) cs (
      kept_outbox (λ d. IsPublishedAt i d.outbox) _ db (mark_published j token db) h
        (Ensures-then _ (raise_if (is_empty token) RepositoryError.bad_claim) _ (λ _.
          Ensures-bind _ (publish_row j token db.outbox) _ (publish_row_keeps i j token db.outbox h)
            (λ rows k. k))))

mark_published_refused :
    (i : ℕ) (token : Text) (db : Database)
    → IsPublishedAt i db.outbox
    → is_ok (mark_published i token db) ≡ false
unfolding mark_published
mark_published_refused i token db h =
    fails (is_empty token) (publish_row i token db.outbox) (publish_row_refused i token db.outbox h)
  where
    fails :
        (b : Bool) (m : Outcome (List OutboxRow))
        → is_ok m ≡ false
        → is_ok {A = Database} (
            raise_if b RepositoryError.bad_claim >>= λ _.
            m >>= λ rows. ok (record db { outbox = rows }))
          ≡ false
    fails true m k = refl
    fails false (ok a) k = cc
    fails false (err e) k = refl

-- After a publication of a row, and any claims and publications, where a refused one changes nothing,
-- no token publishes the same row again.
pub published_once :
    (i : ℕ) (token token' : Text) (db : Database) (cs : List Call)
    → Ensures
        (mark_published i token db)
        (λ db'. is_ok (mark_published i token' (run db' cs)) ≡ false)
unfolding mark_published
published_once i token token' db cs =
    Ensures-then _ (raise_if (is_empty token) RepositoryError.bad_claim) _ (λ _.
      Ensures-bind _ (publish_row i token db.outbox) _ (publish_row-IsPublishedAt i token db.outbox)
        (λ rows h.
          mark_published_refused i token' (run (record db { outbox = rows }) cs)
            (run-IsPublishedAt i (record db { outbox = rows }) cs h)))
